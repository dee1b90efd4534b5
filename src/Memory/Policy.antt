-- ===== src/Memory/Policy.antt =====
-- project/src/memory/domain/reconcile-policy.ts and interval.ts: who survives a merge, what becomes
-- of the loser of a confirmed contradiction, when a supersession is unambiguous, and when a fact
-- holds.
pub mod Survivor
pub mod Interval
use cogeto.Base.{
  ℕ, Bool, true, false, Option, none, some, ltb, leb, if◌then◌else◌, ◌&&◌, ◌||◌, or_else,
}
use cogeto.Shared.{
  MemoryStatus, active, outdated, contradicted, uncertain, replaced, user_approved, same_status,
}

pub record PolicyParty : Type 0 where
  pub id : ℕ
  pub status : MemoryStatus
  pub created_at : ℕ
  pub valid_from : Option ℕ
  pub valid_until : Option ℕ

-- `CONFIDENCE[status] ?? 0`.
unfoldable pub confidence : MemoryStatus → ℕ
confidence user_approved = 2
confidence active = 1
confidence uncertain = 0
confidence outdated = 0
confidence contradicted = 0
confidence replaced = 0

pub data MergeDecision : Type 0 where
  merge : PolicyParty → PolicyParty → MergeDecision
  no_merge : MergeDecision

-- The part of `chooseSurvivor` after the parties are ordered by age: `merge survivor loser`.
abbrev pub survivor_of : PolicyParty → PolicyParty → MergeDecision
survivor_of older newer =
    if same_status older.status user_approved
    then merge older newer
    else if ltb (confidence newer.status) (confidence older.status)
    then merge older newer
    else merge newer older

unfoldable pub choose_survivor : PolicyParty → PolicyParty → MergeDecision
unfolding confidence
choose_survivor a b =
    if same_status a.status user_approved && same_status b.status user_approved
    then no_merge
    else if leb a.created_at b.created_at
    then survivor_of a b
    else survivor_of b a

abbrev pub event_time : PolicyParty → ℕ
event_time party = or_else party.valid_from party.created_at

pub data LoserOutcome : Type 0 where
  loser_outdated loser_replaced : LoserOutcome

abbrev closed_by : Option ℕ → ℕ → Bool
closed_by none t = false
closed_by (some until) t = leb until t

unfoldable pub confirm_loser_outcome : PolicyParty → PolicyParty → LoserOutcome
confirm_loser_outcome confirmed loser =
    if closed_by loser.valid_until (event_time confirmed) then loser_outdated else loser_replaced

unfoldable pub supersession_unambiguous : PolicyParty → PolicyParty → Bool
supersession_unambiguous winner loser =
    if same_status winner.status user_approved || same_status loser.status user_approved
    then false
    else ltb (event_time loser) (event_time winner)

-- The columns that `intervalHoldsAt` reads.
abbrev pub before_end : ℕ → Option ℕ → Bool
before_end t none = true
before_end t (some until) = ltb t until

unfoldable pub interval_holds_at : PolicyParty → ℕ → Bool
interval_holds_at row t =
    if ltb t (or_else row.valid_from row.created_at) then false else before_end t row.valid_until

unfoldable pub is_past_belief : PolicyParty → ℕ → Bool
is_past_belief row now =
    if same_status row.status replaced || same_status row.status outdated
    then true
    else closed_by row.valid_until now
