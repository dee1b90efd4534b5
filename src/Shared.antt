-- ===== src/Shared.antt =====
-- project/shared/src/memory.ts, approvals.ts and principal.ts: the vocabulary of memories and
-- approvals. Scores are in tenths, so that the multipliers 1.0, 0.9, 0.6, 0.4, 0.2 and 0.0 are
-- exact.
use cogeto.Base.{ℕ, ◌≡◌, ◌↔◌, Bool, true, false, List, [], ◌∷◌, String, arith, ◌==◌, ◌||◌}

pub data MemoryStatus : Type 0 where
  active outdated contradicted uncertain replaced user_approved : MemoryStatus

pub data MemoryScope : Type 0 where
  private shared : MemoryScope

pub data FactKind : Type 0 where
  commitment decision preference fact open_loop : FactKind

pub data RelationResolution : Type 0 where
  confirmed_a confirmed_b corrected dismissed : RelationResolution

pub data SourceType : Type 0 where
  user_note chat email calendar_event file task_conclusion web : SourceType

pub record Principal : Type 0 where
  pub user_id : String
  pub org_id : String

abbrev pub status_code : MemoryStatus → ℕ
status_code active = 0
status_code outdated = 1
status_code contradicted = 2
status_code uncertain = 3
status_code replaced = 4
status_code user_approved = 5

-- `===` on statuses.
abbrev pub same_status : MemoryStatus → MemoryStatus → Bool
same_status s t = status_code s == status_code t

pub same_status_iff : (s t : MemoryStatus) → (same_status s t ≡ true) ↔ (s ≡ t)
same_status_iff s t = ground arith

abbrev pub same_scope : MemoryScope → MemoryScope → Bool
same_scope private private = true
same_scope shared shared = true
same_scope _ _ = false

abbrev pub kind_code : FactKind → ℕ
kind_code commitment = 0
kind_code decision = 1
kind_code preference = 2
kind_code fact = 3
kind_code open_loop = 4

abbrev pub same_kind : FactKind → FactKind → Bool
same_kind a b = kind_code a == kind_code b

abbrev pub source_code : SourceType → ℕ
source_code user_note = 0
source_code chat = 1
source_code email = 2
source_code calendar_event = 3
source_code file = 4
source_code task_conclusion = 5
source_code web = 6

abbrev pub same_source_type : SourceType → SourceType → Bool
same_source_type a b = source_code a == source_code b

-- `list.includes(status)`.
abbrev pub has_status : MemoryStatus → List MemoryStatus → Bool
has_status s [] = false
has_status s (t ∷ ts) = same_status t s || has_status s ts

-- STATUS_MULTIPLIERS, in tenths.
unfoldable pub status_multiplier : MemoryStatus → ℕ
status_multiplier active = 10
status_multiplier user_approved = 10
status_multiplier uncertain = 6
status_multiplier contradicted = 4
status_multiplier outdated = 2
status_multiplier replaced = 0

-- TEMPORAL_STATUS_MULTIPLIERS, in tenths.
unfoldable pub temporal_status_multiplier : MemoryStatus → ℕ
temporal_status_multiplier active = 10
temporal_status_multiplier user_approved = 10
temporal_status_multiplier uncertain = 6
temporal_status_multiplier contradicted = 4
temporal_status_multiplier outdated = 9
temporal_status_multiplier replaced = 9

pub data ApprovalStatus : Type 0 where
  draft pending_approval approved rejected expired executed : ApprovalStatus

abbrev pub approval_code : ApprovalStatus → ℕ
approval_code draft = 0
approval_code pending_approval = 1
approval_code approved = 2
approval_code rejected = 3
approval_code expired = 4
approval_code executed = 5

abbrev pub same_approval : ApprovalStatus → ApprovalStatus → Bool
same_approval a b = approval_code a == approval_code b
