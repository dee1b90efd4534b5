-- ===== src/Ingestion/Chunk/Cover.antt =====
-- The chunks of a text are bounded, and rejoin to it.
use cogeto.Base.{
  ℕ, zero, suc, ◌+◌, ◌-◌, ◌*◌, ◌≤◌, ◌<◌, ◌≡◌, ◌⊎◌, refl, arith, sym, ap, ◌∙◌, Option, none, some,
  List, [], ◌∷◌, ◌++◌, ltb, leb, length, take, drop, min, All, Bool-cases, Option-cases, inl, inr,
}
use cogeto.Ingestion.Chunk.{
  Chunk, slice, last_break, prefer_break, chunk_end, chunk_loop, trim, chunk_trimmed, chunk_content,
}

take-drop : (n : ℕ) (xs : List ℕ) → take n xs ++ drop n xs ≡ xs
take-drop zero xs = refl
take-drop (suc n) [] = refl
take-drop (suc n) (x ∷ xs) = ap (λ l. x ∷ l) (take-drop n xs)

drop_nil : (n : ℕ) → drop {A = ℕ} n [] ≡ []
drop_nil zero = refl
drop_nil (suc n) = refl

take_nil : (n : ℕ) → take {A = ℕ} n [] ≡ []
take_nil zero = refl
take_nil (suc n) = refl

drop-drop : (m n : ℕ) (xs : List ℕ) → drop n (drop m xs) ≡ drop (m + n) xs
drop-drop zero n xs = ap (λ k. drop k xs) (omega arith)
drop-drop (suc m) n [] = drop_nil n ∙ sym (drop_nil (suc m + n))
drop-drop (suc m) n (x ∷ xs) =
    let same : suc (m + n) ≡ suc m + n = omega arith in
    drop-drop m n xs ∙ ap (λ k. drop k (x ∷ xs)) same

drop-take : (k n : ℕ) (xs : List ℕ) → drop k (take n xs) ≡ take (n - k) (drop k xs)
drop-take zero n xs = let same : n ≡ n - 0 = omega arith in ap (λ j. take j xs) same
drop-take (suc k) zero xs =
    let same : 0 ≡ 0 - suc k = omega arith in ap (λ j. take j (drop (suc k) xs)) same
drop-take (suc k) (suc n) [] = sym (take_nil (suc n - suc k))
drop-take (suc k) (suc n) (x ∷ xs) =
    let same : n - k ≡ suc n - suc k = omega arith in
    drop-take k n xs ∙ ap (λ j. take j (drop k xs)) same

length-take-le : (n : ℕ) (xs : List ℕ) → length (take n xs) ≤ n
length-take-le zero xs = omega arith
length-take-le (suc n) [] = omega arith
length-take-le (suc n) (x ∷ xs) = omega (arith, length-take-le n xs)

take_all : (n : ℕ) (xs : List ℕ) → length xs ≤ n → take n xs ≡ xs
take_all zero [] le = refl
take_all zero (x ∷ xs) le = absurd (omega (arith, le))
take_all (suc n) [] le = refl
take_all (suc n) (x ∷ xs) le = ap (λ l. x ∷ l) (take_all n xs (omega (arith, le)))

length-drop : (n : ℕ) (xs : List ℕ) → length (drop n xs) ≡ length xs - n
length-drop zero xs = omega arith
length-drop (suc n) [] = omega arith
length-drop (suc n) (x ∷ xs) = omega (arith, length-drop n xs)

last_break-lt : (cs : List ℕ) (k : ℕ) → last_break cs ≡ some k → k < length cs
unfolding last_break
last_break-lt [] k e = absurd (cc e)
last_break-lt (c ∷ cs) k e = elim (Option-cases (last_break cs)) [
  | inl q ↦ ground (arith, q, e)
  | inr (j, q) ↦ ground (arith, q, e, last_break-lt cs j q)
]

-- Where a chunk may end.
record EndOk (max_chars overlap : ℕ) (units : List ℕ) (start end : ℕ) : Type 0 where
  within : end ≤ length units
  short : end ≤ start + max_chars
  forward : start < end
  last_or_on : (end ≡ length units) ⊎ (start + overlap < end)

prefer_break-EndOk :
    (max_chars overlap : ℕ) (units : List ℕ) (start end : ℕ) (o : Option ℕ)
    → overlap * 2 ≤ max_chars
    → 1 ≤ max_chars
    → end ≡ start + max_chars
    → end < length units
    → ((k : ℕ) → o ≡ some k → k < max_chars)
    → EndOk max_chars overlap units start (prefer_break max_chars start end o)
prefer_break-EndOk max_chars overlap units start end none half one is_end inside low = record {
  within = omega (arith, inside);
  short = omega (arith, is_end);
  forward = omega (arith, is_end, one);
  last_or_on = inr (omega (arith, is_end, half, one));
}
prefer_break-EndOk max_chars overlap units start end (some k) half one is_end inside low =
    let lt : k < max_chars = low k refl in
    record {
      within = ground (arith, inside, is_end, lt);
      short = ground (arith, is_end, lt);
      forward = ground (arith, is_end, one);
      last_or_on = inr (ground (arith, is_end, half, one));
    }

chunk_end-EndOk :
    (max_chars overlap : ℕ) (units : List ℕ) (start : ℕ)
    → overlap * 2 ≤ max_chars
    → 1 ≤ max_chars
    → start < length units
    → EndOk max_chars overlap units start (chunk_end max_chars units start)
unfolding chunk_end
chunk_end-EndOk max_chars overlap units start half one inside =
    let end : ℕ = min (start + max_chars) (length units) in
    elim (Bool-cases (ltb end (length units))) [
      | inl e ↦ rw e (
          prefer_break-EndOk max_chars overlap units start end (last_break (slice start end units))
            half one (ground (arith, e)) (ground (arith, e))
            λ k q.
              let low = last_break-lt (slice start end units) k q in
              let size = length-take-le (end - start) (drop start units) in
              omega (arith, low, size))
      | inr e ↦ rw e (record {
        within = omega arith;
        short = omega arith;
        forward = omega (arith, inside, one);
        last_or_on = inl (ground (arith, e));
      })
    ]

-- The chunks after the first without what they repeat.
abbrev rejoin : ℕ → List Chunk → List ℕ
rejoin overlap [] = []
rejoin overlap (c ∷ cs) = drop overlap c.text ++ rejoin overlap cs

slice-rejoin :
    (overlap start end : ℕ) (units : List ℕ)
    → start + overlap ≤ end
    → drop overlap (slice start end units) ++ drop end units ≡ drop (start + overlap) units
slice-rejoin overlap start end units le =
    let tail : List ℕ = drop (start + overlap) units in
    let left_ : drop overlap (slice start end units) ≡ take (end - start - overlap) tail =
      drop-take overlap (end - start) (drop start units)
      ∙ ap (take (end - start - overlap)) (drop-drop start overlap units) in
    let right_ : drop end units ≡ drop (end - start - overlap) tail =
      ap (λ k. drop k units) (omega (arith, le))
      ∙ sym (drop-drop (start + overlap) (end - start - overlap) units) in
    rw (left_, right_) (take-drop (end - start - overlap) tail)

slice-rest :
    (start end : ℕ) (units : List ℕ)
    → start ≤ end
    → slice start end units ++ drop end units ≡ drop start units
slice-rest start end units le =
    let right_ : drop end units ≡ drop (end - start) (drop start units) =
      ap (λ k. drop k units) (omega (arith, le)) ∙ sym (drop-drop start (end - start) units) in
    rw right_ (take-drop (end - start) (drop start units))

-- What the loop makes of the text from `start` on.
record Cut (max_chars overlap : ℕ) (units : List ℕ) (start : ℕ) (chunks : List Chunk) : Type 0 where
  joined : rejoin overlap chunks ≡ drop (start + overlap) units
  bounded : All (λ c. length c.text ≤ max_chars) chunks
  whole :
      (c : Chunk) × (cs : List Chunk) × (chunks ≡ c ∷ cs)
      × (c.text ++ rejoin overlap cs ≡ drop start units)

slice-last :
    (start end : ℕ) (units : List ℕ) → end ≡ length units → slice start end units ≡ drop start units
slice-last start end units e =
    take_all (end - start) (drop start units) (omega (arith, e, length-drop start units))

append_nil : (xs : List ℕ) → xs ++ [] ≡ xs
append_nil [] = refl
append_nil (x ∷ xs) = ap (λ l. x ∷ l) (append_nil xs)

Cut-last :
    (max_chars overlap : ℕ) (units : List ℕ) (start end index : ℕ)
    → end ≡ length units
    → end ≤ start + max_chars
    → Cut max_chars overlap units start
        (record { text = slice start end units; index = index } ∷ [])
Cut-last max_chars overlap units start end index e short =
    let last_ : slice start end units ≡ drop start units = slice-last start end units e in
    record {
      joined =
          append_nil (drop overlap (slice start end units))
          ∙ ap (drop overlap) last_
          ∙ drop-drop start overlap units;
      bounded = (omega (arith, length-take-le (end - start) (drop start units), short), tt);
      whole = (_, [], refl, append_nil (slice start end units) ∙ last_);
    }

Cut-more :
    (max_chars overlap : ℕ) (units : List ℕ) (start end index : ℕ) (rest : List Chunk)
    → start + overlap < end
    → end ≤ start + max_chars
    → Cut max_chars overlap units (end - overlap) rest
    → Cut max_chars overlap units start
        (record { text = slice start end units; index = index } ∷ rest)
Cut-more max_chars overlap units start end index rest on short cut =
    let back : end - overlap + overlap ≡ end = omega (arith, on) in
    let tail : rejoin overlap rest ≡ drop end units = cut.joined ∙ ap (λ k. drop k units) back in
    record {
      joined =
          ap (λ l. drop overlap (slice start end units) ++ l) tail
          ∙ slice-rejoin overlap start end units (omega (arith, on));
      bounded =
          (omega (arith, length-take-le (end - start) (drop start units), short), cut.bounded);
      whole = (
        _,
        rest,
        refl,
        ap (λ l. slice start end units ++ l) tail ∙ slice-rest start end units (omega (arith, on)),
      );
    }

chunk_loop-Cut :
    (max_chars overlap : ℕ) (units : List ℕ) (rounds start index : ℕ)
    → overlap * 2 ≤ max_chars
    → 1 ≤ max_chars
    → start < length units
    → length units ≤ start + rounds
    → Cut max_chars overlap units start (chunk_loop max_chars overlap units rounds start index)
unfolding chunk_loop
chunk_loop-Cut max_chars overlap units zero start index half one inside enough =
    absurd (omega (arith, inside, enough))
chunk_loop-Cut max_chars overlap units (suc rounds) start index half one inside enough =
    let end : ℕ = chunk_end max_chars units start in
    let fine : EndOk max_chars overlap units start end =
      chunk_end-EndOk max_chars overlap units start half one inside in
    elim (Bool-cases (leb (length units) end)) [
      | inl e ↦ rw e (
          Cut-last max_chars overlap units start end index (ground (arith, e, fine.within))
            fine.short)
      | inr e ↦
          let on : start + overlap < end = ground (arith, e, fine.last_or_on) in
          rw e (
            Cut-more max_chars overlap units start end index
              (chunk_loop max_chars overlap units rounds (end - overlap) (suc index)) on fine.short
              (chunk_loop-Cut max_chars overlap units rounds (end - overlap) (suc index) half one
                (ground (arith, e)) (omega (arith, enough, on))))
    ]

-- The first chunk, and then the others without what they repeat.
abbrev pub rebuild : ℕ → List Chunk → List ℕ
rebuild overlap [] = []
rebuild overlap (c ∷ cs) = c.text ++ rejoin overlap cs

abbrev pub Fits : ℕ → Chunk → Type 0
Fits max_chars c = length c.text ≤ max_chars

Cut-rebuild :
    (max_chars overlap : ℕ) (units : List ℕ) (chunks : List Chunk)
    → Cut max_chars overlap units 0 chunks
    → (rebuild overlap chunks ≡ units) × All (Fits max_chars) chunks
Cut-rebuild max_chars overlap units chunks cut =
    let (c, cs, is, joined) = cut.whole in (ap (rebuild overlap) is ∙ joined, cut.bounded)

chunk_trimmed-rebuild :
    (max_chars overlap : ℕ) (units : List ℕ)
    → overlap * 2 ≤ max_chars
    → 1 ≤ max_chars
    → (rebuild overlap (chunk_trimmed max_chars overlap units) ≡ units)
      × All (Fits max_chars) (chunk_trimmed max_chars overlap units)
chunk_trimmed-rebuild max_chars overlap [] half one = (refl, tt)
chunk_trimmed-rebuild max_chars overlap (c ∷ cs) half one =
    elim (Bool-cases (leb (length (c ∷ cs)) max_chars)) [
      | inl e ↦ rw e (append_nil (c ∷ cs), (ground (arith, e), tt))
      | inr e ↦ rw e (
          Cut-rebuild max_chars overlap (c ∷ cs) _ (
            chunk_loop-Cut max_chars overlap (c ∷ cs) (length (c ∷ cs)) 0 0 half one (omega arith)
              (omega arith)))
    ]

-- Where the overlap is at most half of a positive bound, the chunks of a content, the first whole
-- and each later one without its first `overlap` units, join to the trimmed content, and none is
-- longer than the bound.
pub chunk_content-rebuild :
    (max_chars overlap : ℕ) (content : List ℕ)
    → overlap * 2 ≤ max_chars
    → 1 ≤ max_chars
    → (rebuild overlap (chunk_content max_chars overlap content) ≡ trim content)
      × All (Fits max_chars) (chunk_content max_chars overlap content)
unfolding chunk_content
chunk_content-rebuild max_chars overlap content half one =
    chunk_trimmed-rebuild max_chars overlap (trim content) half one
