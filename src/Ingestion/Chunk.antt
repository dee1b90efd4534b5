-- ===== src/Ingestion/Chunk.antt =====
-- project/src/ingestion/pipeline/chunk.ts: cutting a source into overlapping chunks. A text is the
-- list of its code units. The overlap is at most half of the bound, as the source's constants have
-- it: a chunk that is not the last then ends past the overlap, and `end - overlap` is as in the code.
pub mod Cover
use cogeto.Base.{
  ℕ, zero, suc, ◌+◌, ◌-◌, ◌*◌, Bool, true, false, Option, none, some, List, [], ◌∷◌, if◌then◌else◌,
  ltb, leb, length, take, drop, min, all, is_space, ◌==◌, ◌||◌,
}

pub record Chunk : Type 0 where
  pub text : List ℕ
  pub index : ℕ

abbrev pub chunk_max_chars : ℕ
chunk_max_chars = 6000

abbrev pub chunk_overlap_chars : ℕ
chunk_overlap_chars = 500

-- `text.slice(from, to)`.
abbrev pub slice : ℕ → ℕ → List ℕ → List ℕ
slice from to units = take (to - from) (drop from units)

-- The last newline or space of a window: the greater of the two `lastIndexOf`.
abbrev is_break : ℕ → Bool
is_break c = c == 10 || c == 32

abbrev later_break : ℕ → Option ℕ → Option ℕ
later_break c none = if is_break c then some 0 else none
later_break c (some k) = some (suc k)

unfoldable pub last_break : List ℕ → Option ℕ
last_break [] = none
last_break (c ∷ cs) = later_break c (last_break cs)

-- A break past the middle of the window ends the chunk there.
abbrev pub prefer_break : ℕ → ℕ → ℕ → Option ℕ → ℕ
prefer_break max_chars start end none = end
prefer_break max_chars start end (some k) = if ltb max_chars (k * 2) then start + k else end

unfoldable pub chunk_end : ℕ → List ℕ → ℕ → ℕ
chunk_end max_chars units start =
    let end = min (start + max_chars) (length units) in
    if ltb end (length units)
    then prefer_break max_chars start end (last_break (slice start end units))
    else end

-- The loop, with the number of rounds that it may run.
unfoldable pub chunk_loop : ℕ → ℕ → List ℕ → (rounds start index : ℕ) → List Chunk
chunk_loop max_chars overlap units zero start index = []
chunk_loop max_chars overlap units (suc rounds) start index =
    let end = chunk_end max_chars units start in
    let rest = chunk_loop max_chars overlap units rounds (end - overlap) (suc index) in
    record { text = slice start end units; index = index }
    ∷ (if leb (length units) end then [] else rest)

abbrev trim_start : List ℕ → List ℕ
trim_start [] = []
trim_start (c ∷ cs) = if is_space c then trim_start cs else c ∷ cs

abbrev trim_end : List ℕ → List ℕ
trim_end [] = []
trim_end (c ∷ cs) = if all is_space (c ∷ cs) then [] else c ∷ trim_end cs

abbrev pub trim : List ℕ → List ℕ
trim units = trim_end (trim_start units)

abbrev pub chunk_trimmed : ℕ → ℕ → List ℕ → List Chunk
chunk_trimmed max_chars overlap [] = []
chunk_trimmed max_chars overlap (c ∷ cs) =
    if leb (length (c ∷ cs)) max_chars
    then record { text = c ∷ cs; index = 0 } ∷ []
    else chunk_loop max_chars overlap (c ∷ cs) (length (c ∷ cs)) 0 0

unfoldable pub chunk_content : ℕ → ℕ → List ℕ → List Chunk
chunk_content max_chars overlap content = chunk_trimmed max_chars overlap (trim content)
