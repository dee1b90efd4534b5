-- ===== src/Db/State.antt =====
-- The state of one instance, and computations on it that may throw.
use cogeto.Base.{ℕ, Bool, String, Option, List, ◌≡◌, refl, ◌⊎◌, inl, inr}
use cogeto.Db.Rows.{
  MemoryRow, MemoryRelationRow, ApprovalRow, AuditEntry, Job, DomainEvent, FileRow, SourceRow,
  SourceKey, Alert, TaskRow, ChatMessage, ReceiptRow,
}
use cogeto.Db.Vectors.{Point}

-- The tables that the deletion of a source reaches beside the memories. `ingested` are the sources
-- whose ingestion is done or cancelled, `running` those that a pipeline run holds the lock of.
pub record Vault : Type 0 where
  pub files : List FileRow
  pub sources : List SourceRow
  pub tasks : List TaskRow
  pub messages : List ChatMessage
  pub receipts : List ReceiptRow
  pub ingested : List SourceKey
  pub running : List SourceKey
  pub alerts : List Alert

-- The tables, the vector index, and what the environment decides: the clock, the next unused
-- uuid, the directory, and which calls of the index fail. The audit log, the outbox and the job
-- queue have their newest entry first.
pub record World : Type 0 where
  pub memories : List MemoryRow
  pub relations : List MemoryRelationRow
  pub approvals : List ApprovalRow
  pub vault : Vault
  pub audit : List AuditEntry
  pub events : List DomainEvent
  pub jobs : List Job
  -- `none`: the store was constructed without a vector index.
  pub points : Option (List Point)
  -- The keys of the object store.
  pub objects : List String
  -- The answers to the next calls of the index and the object store: `true` is a failure; past the
  -- end they succeed.
  pub outages : List Bool
  pub now : ℕ
  pub next_id : ℕ
  pub org_of : String → Option String

pub data Error : Type 0 where
  bad_request not_found not_implemented unprocessable internal index_down : Error
  constraint_violation store_down : Error

pub data Answer {ℓ} (A : Type ℓ) : Type ℓ where
  ok : A → World → Answer A
  err : Error → World → Answer A

abbrev pub M {ℓ} : Type ℓ → Type ℓ
M A = World → Answer A

abbrev pub bind {ℓ κ} : {A : Type ℓ} {B : Type κ} → Answer A → (A → M B) → Answer B
bind (ok a w) f = f a w
bind (err e w) f = err e w

infixl 5 ◌>>=◌ ◌>>◌
abbrev pub ◌>>=◌ {ℓ κ} : {A : Type ℓ} {B : Type κ} → M A → (A → M B) → M B
◌>>=◌ m f w = bind (m w) f

abbrev pub ◌>>◌ {ℓ κ} : {A : Type ℓ} {B : Type κ} → M A → M B → M B
◌>>◌ m k w = bind (m w) (λ _. k)

abbrev pub pure {ℓ} : {A : Type ℓ} → A → M A
pure a w = ok a w

abbrev pub throw {ℓ} : {A : Type ℓ} → Error → M A
throw e w = err e w

abbrev pub gets {ℓ} : {A : Type ℓ} → (World → A) → M A
gets f w = ok (f w) w

abbrev pub modify : (World → World) → M (Unit {0})
modify f w = ok tt (f w)

-- What a failed transaction leaves: the tables as they were, the index and the objects as
-- the body left them.
abbrev pub rollback : World → World → World
rollback before after = record before {
  points = after.points;
  objects = after.objects;
  outages = after.outages;
}

abbrev pub settle {ℓ} : {A : Type ℓ} → World → Answer A → Answer A
settle before (ok a w) = ok a w
settle before (err e w) = err e (rollback before w)

-- `db.transaction(body)`.
abbrev pub transaction {ℓ} : {A : Type ℓ} → M A → M A
transaction m w = settle w (m w)

pub Answer-cases {ℓ} :
    {A : Type ℓ} (r : Answer A)
    → ((a : A) × (w : World) × (r ≡ ok a w)) ⊎ ((e : Error) × (w : World) × (r ≡ err e w))
Answer-cases (ok a w) = inl (a, w, refl)
Answer-cases (err e w) = inr (e, w, refl)
