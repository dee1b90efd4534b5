-- ===== src/Memory/Policy/Survivor.antt =====
-- The merge and supersession policies never act against the user's judgment, and do not depend on
-- the order in which a pair is presented.
use cogeto.Base.{◌≤◌, ◌≡◌, ◌≢◌, ◌⊎◌, ◌↔◌, true, false, arith, leb, leb→le, Bool-cases, inl, inr}
use cogeto.Shared.{user_approved}
use cogeto.Memory.Policy.{
  PolicyParty, merge, no_merge, confidence, survivor_of, choose_survivor, supersession_unambiguous,
}

-- What a merge decision is entitled to: the parties are the two given, the loser is no confirmed
-- memory, it is not more trusted than the survivor, and where the two are trusted alike and the
-- survivor is not confirmed, the survivor is the later capture.
pub record Entitled (a b survivor loser : PolicyParty) : Type 0 where
  pub parties : ((survivor ≡ a) × (loser ≡ b)) ⊎ ((survivor ≡ b) × (loser ≡ a))
  pub shielded : loser.status ≢ user_approved
  pub trusted : confidence loser.status ≤ confidence survivor.status
  pub later :
      confidence loser.status ≡ confidence survivor.status → loser.created_at ≤ survivor.created_at

survivor_of-Entitled :
    (older newer survivor loser : PolicyParty)
    → older.created_at ≤ newer.created_at
    → (older.status ≡ user_approved → newer.status ≢ user_approved)
    → survivor_of older newer ≡ merge survivor loser
    → Entitled older newer survivor loser
unfolding confidence
survivor_of-Entitled older newer survivor loser age one h = ground arith

Entitled-swap :
    (a b survivor loser : PolicyParty) → Entitled a b survivor loser → Entitled b a survivor loser
Entitled-swap a b survivor loser e = record {
  parties = ground (arith, e.parties);
  shielded = e.shielded;
  trusted = e.trusted;
  later = e.later;
}

-- Every merge that `choose_survivor` decides on is entitled.
pub choose_survivor-Entitled :
    (a b survivor loser : PolicyParty)
    → choose_survivor a b ≡ merge survivor loser
    → Entitled a b survivor loser
unfolding choose_survivor
choose_survivor-Entitled a b survivor loser h = elim (Bool-cases (leb a.created_at b.created_at)) [
  | inl e ↦ survivor_of-Entitled a b survivor loser (leb→le _ _ e) (ground arith) (ground arith)
  | inr e ↦
      Entitled-swap b a survivor loser
        (survivor_of-Entitled b a survivor loser (ground arith) (ground arith) (ground arith))
]

-- The survivor does not depend on which of two memories captured at different times comes first.
pub choose_survivor_comm :
    (a b : PolicyParty) → a.created_at ≢ b.created_at → choose_survivor a b ≡ choose_survivor b a
unfolding choose_survivor
choose_survivor_comm a b ne = ground arith

-- Nothing is merged exactly when both memories are confirmed by the user.
pub choose_survivor-no_merge :
    (a b : PolicyParty)
    → (choose_survivor a b ≡ no_merge) ↔ ((a.status ≡ user_approved) × (b.status ≡ user_approved))
unfolding choose_survivor
choose_survivor-no_merge a b = (ground arith, ground arith)

-- A supersession is never unambiguous in both directions.
pub supersession_asymmetric :
    (a b : PolicyParty) → supersession_unambiguous a b ≡ true → supersession_unambiguous b a ≡ false
unfolding supersession_unambiguous
supersession_asymmetric a b h = ground arith
