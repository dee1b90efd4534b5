-- ===== src/Tests/Fixtures.antt =====
-- Data shared by the tests.
use cogeto.Base.{ℕ, String, false, Option, none, some, List, [], ◌∷◌}
use cogeto.Shared.{
  MemoryStatus, active, uncertain, replaced, private, fact, user_note, Principal, pending_approval,
}
use cogeto.Db.{MemoryRow, World, Vault, Point, ApprovalRow, bulk_outdate, memory_bulk_outdate}
use cogeto.Memory.Facts.{NewFact}

abbrev pub ana : Principal
ana = record { user_id = "ana"; org_id = "acme" }

abbrev pub note : ℕ → MemoryStatus → Option ℕ → Option ℕ → MemoryRow
note id status successor until = record {
  id = id;
  owner_id = "ana";
  scope = private;
  source_type = user_note;
  source_id = "note-1";
  status = status;
  sensitive = false;
  entities = [];
  temporal_unresolved = [];
  subject_entity = none;
  kind = some fact;
  authored_by_user = none;
  valid_from = some 5;
  valid_until = until;
  superseded_by = successor;
  content = some "Ana prefers tea";
  content_embedding_ref = none;
  embedding_model = none;
  created_at = id;
  updated_at = id;
}

abbrev pub point : ℕ → MemoryStatus → Point
point id status = record {
  id = id;
  owner_id = "ana";
  scope = private;
  status = status;
  sensitive = false;
  source_type = user_note;
  source_id = "note-1";
  valid_until = none;
}

abbrev pub new_fact : String → NewFact
new_fact text = record {
  content = text;
  scope = private;
  source_type = user_note;
  source_id = "note-1";
  entities = [];
  subject_entity = none;
  kind = some fact;
  authored_by_user = none;
  temporal_unresolved = [];
  sensitive = false;
  valid_from = none;
  valid_until = none;
  initial_status = none;
  embedding_model = none;
}

abbrev pub empty_vault : Vault
empty_vault = record {
  files = [];
  sources = [];
  tasks = [];
  messages = [];
  receipts = [];
  ingested = [];
  running = [];
  alerts = [];
}

abbrev pub world_with : List MemoryRow → List ApprovalRow → ℕ → World
world_with memories approvals next_id = record {
  memories = memories;
  relations = [];
  approvals = approvals;
  vault = empty_vault;
  objects = [];
  audit = [];
  events = [];
  jobs = [];
  points = some [];
  outages = [];
  now = 100;
  next_id = next_id;
  org_of = λ owner. some "acme";
}

-- Memory 1 replaced memory 0.
abbrev pub replaced_world : World
replaced_world = world_with (note 1 active none none ∷ note 0 replaced (some 1) (some 50) ∷ []) [] 2

-- Two uncertain memories.
abbrev pub doubtful_world : World
doubtful_world = world_with (note 1 uncertain none none ∷ note 0 uncertain none none ∷ []) [] 2

abbrev pub request_of : ℕ → ApprovalRow
request_of id = record {
  id = id;
  action_type = memory_bulk_outdate;
  payload_json = bulk_outdate (1 ∷ []) none;
  status = pending_approval;
  org_id = some "acme";
  requested_by = some "ana";
  decided_by = none;
  decided_at = none;
  executed_at = none;
  expires_at = some 90;
  created_at = 0;
}

-- A pending request to retire memory 1.
abbrev pub request_world : World
request_world = world_with (note 1 active none none ∷ []) (request_of 5 ∷ []) 6
