-- ===== src/Memory/Visibility/Chain.antt =====
-- The supersession chain: every row of it is visible, each names the next as its successor, and it
-- has at most the rows that the hop limits allow.
use cogeto.Base.{
  ℕ, suc, zero, ◌+◌, ◌≤◌, Bool, true, Option, none, some, List, [], ◌∷◌, ◌++◌, ◌≡◌, refl, arith,
  length, first, All, Bool-cases, inl, inr, Option-cases, ◌&&◌, ap, sym, subst, ◌∙◌, ◌==◌,
}
use cogeto.Shared.{Principal}
use cogeto.Db.{MemoryRow, names}
use cogeto.Memory.Visibility.{
  visible_to, get_for_principal, predecessor, successor, backward, forward, chain_hops, chain_of,
  get_chain,
}

first-holds {ℓ} :
    {A : Type ℓ} (p : A → Bool) (xs : List A) (x : A) → first p xs ≡ some x → p x ≡ true
first-holds p [] x h = absurd (cc)
first-holds p (y ∷ xs) x h = elim (Bool-cases (p y)) [
  | inl e ↦ ground (arith, e, h)
  | inr e ↦ first-holds p xs x (ground (arith, e, h))
]

-- Each row names the next as its successor.
abbrev pub Linked : List MemoryRow → Type 0
Linked [] = Unit {0}
Linked (a ∷ []) = Unit {0}
Linked (a ∷ b ∷ rows) = (a.superseded_by ≡ some b.id) × Linked (b ∷ rows)

abbrev pub Seen : Principal → Bool → MemoryRow → Type 0
Seen p inc row = visible_to p inc row ≡ true

found_visible :
    (p : Principal) (id : ℕ) (inc : Bool) (rows : List MemoryRow) (row : MemoryRow)
    → get_for_principal p id inc rows ≡ some row
    → (row.id ≡ id) × Seen p inc row
unfolding get_for_principal
found_visible p id inc rows row h =
    let both = first-holds (λ r. r.id == id && visible_to p inc r) rows row h in
    (ground (arith, both), ground (arith, both))

before_visible :
    (p : Principal) (inc : Bool) (rows : List MemoryRow) (head row : MemoryRow)
    → predecessor p inc rows head ≡ some row
    → (row.superseded_by ≡ some head.id) × Seen p inc row
before_visible p inc rows head row h =
    let both = first-holds (λ r. names head.id r.superseded_by && visible_to p inc r) rows row h in
    (ground (arith, both), ground (arith, both))

after_named :
    (p : Principal) (inc : Bool) (rows : List MemoryRow) (tail row : MemoryRow) (o : Option ℕ)
    → tail.superseded_by ≡ o
    → elim o [ none ↦ none | some id ↦ get_for_principal p id inc rows ] ≡ some row
    → (tail.superseded_by ≡ some row.id) × Seen p inc row
after_named p inc rows tail row none named h = absurd (cc)
after_named p inc rows tail row (some id) named h =
    let found = found_visible p id inc rows row h in (named ∙ ap some (sym found.0), found.1)

after_visible :
    (p : Principal) (inc : Bool) (rows : List MemoryRow) (tail row : MemoryRow)
    → successor p inc rows tail ≡ some row
    → (tail.superseded_by ≡ some row.id) × Seen p inc row
after_visible p inc rows tail row h = after_named p inc rows tail row tail.superseded_by refl h

-- What holds of a tail and the rows after it.
abbrev After : Principal → Bool → ℕ → MemoryRow → List MemoryRow → Type 0
After p inc hops tail rows = Linked (tail ∷ rows) × All (Seen p inc) rows × (length rows ≤ hops)

forward-After :
    (p : Principal) (inc : Bool) (rows : List MemoryRow) (hops : ℕ) (tail : MemoryRow)
    → After p inc hops tail (forward p inc rows hops tail)
unfolding forward
forward-After p inc rows zero tail = (tt, tt, omega arith)
forward-After p inc rows (suc hops) tail = elim (Option-cases (successor p inc rows tail)) [
  | inl e ↦
      let stop : forward p inc rows (suc hops) tail ≡ [] = rw (e, forward) refl in
      subst (After p inc (suc hops) tail) (sym stop) (tt, tt, omega arith)
  | inr (row, e) ↦
      let go : forward p inc rows (suc hops) tail ≡ row ∷ forward p inc rows hops row =
        rw (e, forward) refl in
      let step = after_visible p inc rows tail row e in
      let rest = forward-After p inc rows hops row in
      subst (After p inc (suc hops) tail) (sym go)
        ((step.0, rest.0), (step.1, rest.1), omega (arith, rest.2))
]

-- What holds of a chain of at most `n` rows.
abbrev Chained : Principal → Bool → ℕ → List MemoryRow → Type 0
Chained p inc n rows = Linked rows × All (Seen p inc) rows × (length rows ≤ n)

-- One hop, or none.
stops :
    (p : Principal) (inc : Bool) (rows : List MemoryRow) (hops : ℕ) (head : MemoryRow)
    (later : List MemoryRow)
    → predecessor p inc rows head ≡ none
    → backward p inc rows (suc hops) (head ∷ later) head ≡ head ∷ later
unfolding backward
stops p inc rows hops head later e = rw (e, backward) refl

goes :
    (p : Principal) (inc : Bool) (rows : List MemoryRow) (hops : ℕ) (head row : MemoryRow)
    (later : List MemoryRow)
    → predecessor p inc rows head ≡ some row
    → backward p inc rows (suc hops) (head ∷ later) head
      ≡ backward p inc rows hops (row ∷ head ∷ later) row
unfolding backward
goes p inc rows hops head row later e = rw (e, backward) refl

backward-Chained :
    (p : Principal) (inc : Bool) (rows : List MemoryRow) (hops : ℕ) (head : MemoryRow)
    (later : List MemoryRow) (n : ℕ)
    → Chained p inc n (head ∷ later)
    → Chained p inc (hops + n) (backward p inc rows hops (head ∷ later) head)
unfolding backward
backward-Chained p inc rows zero head later n ok = (ok.0, ok.1, omega (arith, ok.2))
backward-Chained p inc rows (suc hops) head later n ok =
    elim (Option-cases (predecessor p inc rows head)) [
      | inl e ↦
          let stop = stops p inc rows hops head later e in
          subst (Chained p inc (suc hops + n)) (sym stop) (ok.0, ok.1, omega (arith, ok.2))
      | inr (row, e) ↦
          let go = goes p inc rows hops head row later e in
          let step = before_visible p inc rows head row e in
          let rest =
            backward-Chained p inc rows hops row (head ∷ later) (suc n)
              ((step.0, ok.0), (step.1, ok.1), omega (arith, ok.2)) in
          subst (Chained p inc (suc hops + n)) (sym go) (rest.0, rest.1, omega (arith, rest.2))
    ]

-- The chain is built backward from the target alone, then the later rows are appended: the same as
-- building it backward from the target with the later rows behind it.
backward-append :
    (p : Principal) (inc : Bool) (rows : List MemoryRow) (hops : ℕ) (head : MemoryRow)
    (later after : List MemoryRow)
    → backward p inc rows hops (head ∷ later) head ++ after
      ≡ backward p inc rows hops (head ∷ (later ++ after)) head
unfolding backward
backward-append p inc rows zero head later after = refl
backward-append p inc rows (suc hops) head later after =
    elim (Option-cases (predecessor p inc rows head)) [
      | inl e ↦
          ap (λ l. l ++ after) (stops p inc rows hops head later e)
          ∙ sym (stops p inc rows hops head (later ++ after) e)
      | inr (row, e) ↦
          ap (λ l. l ++ after) (goes p inc rows hops head row later e)
          ∙ backward-append p inc rows hops row (head ∷ later) after
          ∙ sym (goes p inc rows hops head row (later ++ after) e)
    ]

chain_of-Chained :
    (p : Principal) (id : ℕ) (inc : Bool) (rows : List MemoryRow) (o : Option MemoryRow)
    → get_for_principal p id inc rows ≡ o
    → Chained p inc 101 (chain_of p inc rows o)
chain_of-Chained p id inc rows none e = (tt, tt, omega arith)
chain_of-Chained p id inc rows (some target) e =
    let after = forward p inc rows chain_hops target in
    let ok : After p inc chain_hops target after = forward-After p inc rows chain_hops target in
    let seen : Seen p inc target = (found_visible p id inc rows target e).1 in
    subst (Chained p inc 101) (sym (backward-append p inc rows chain_hops target [] after)) (
      backward-Chained p inc rows chain_hops target after 51
        (ok.0, (seen, ok.1), omega (arith, ok.2)))

-- Each row of a chain passes the gates of its reader and names the next row as its successor, and a
-- chain has at most 101 rows.
pub get_chain-Chained :
    (p : Principal) (id : ℕ) (inc : Bool) (rows : List MemoryRow)
    → Linked (get_chain p id inc rows)
      × All (Seen p inc) (get_chain p id inc rows)
      × (length (get_chain p id inc rows) ≤ 101)
unfolding get_chain
get_chain-Chained p id inc rows = chain_of-Chained p id inc rows _ refl
