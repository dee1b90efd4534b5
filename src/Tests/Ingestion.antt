-- ===== src/Tests/Ingestion.antt =====
-- The chunking of a small text.
use cogeto.Base.{ℕ, List, [], ◌∷◌, ◌≡◌, refl, arith, All, is_space}
use cogeto.Ingestion.Chunk.{trim, chunk_content, chunk_loop, chunk_end, last_break}
use cogeto.Ingestion.Chunk.Cover.{rebuild, Fits, chunk_content-rebuild}

-- "ab cd ef " between two spaces.
abbrev sentence : List ℕ
sentence = 32 ∷ 97 ∷ 98 ∷ 32 ∷ 99 ∷ 100 ∷ 32 ∷ 101 ∷ 102 ∷ 32 ∷ []

-- The chunks of five units with an overlap of one are "ab cd" and "d ef".
sentence_chunks : chunk_content 5 1 sentence ≡ (
    record { text = 97 ∷ 98 ∷ 32 ∷ 99 ∷ 100 ∷ []; index = 0 }
    ∷ record { text = 100 ∷ 32 ∷ 101 ∷ 102 ∷ []; index = 1 }
    ∷ [])
unfolding chunk_content chunk_loop chunk_end last_break is_space
sentence_chunks = refl

chunk_content-rebuild_example :
    (rebuild 1 (chunk_content 5 1 sentence) ≡ trim sentence)
    × All (Fits 5) (chunk_content 5 1 sentence)
chunk_content-rebuild_example = chunk_content-rebuild 5 1 sentence (omega arith) (omega arith)
