-- ===== src/Tests/ChunkTests.antt =====
-- Short texts cut into chunks (core/bitmod/ingestion/chunker.py).
use bit_mod_ai_inference_cac.Chunker.Recursive.{AreChunks}
use bit_mod_ai_inference_cac.Prelude.{
  ◌<◌, length, ◌⊎◌, refl, ◌≢◌, arith, [], ◌↔◌, ◌∷◌, pos, some, ◌≡◌, ℕ,
}
use bit_mod_ai_inference_cac.Tests.KeyTests.{text_discrete}
use bit_mod_ai_inference_cac.Strings.{Text, codes}
use bit_mod_ai_inference_cac.Chunker.Returns.{chunk_text_positions, chunk_text_terminates}
use bit_mod_ai_inference_cac.Chunker.{
  TextChunks, TextChunk, ChunkConfig, chunk_text, chunk_recursive, chunk_semantic,
}

abbrev config : ChunkConfig
config = record { chunk_size = 4; chunk_overlap = 1; min_chunk_size = 1; strategy = codes "fixed" }

abbrev by_separators : ChunkConfig
by_separators = record {
  chunk_size = 4;
  chunk_overlap = 0;
  min_chunk_size = 1;
  strategy = codes "recursive";
}

chunk_text_positions_example :
    (chunks : TextChunks) × (chunk_text text_discrete 10 (codes "one two") config ≡ some chunks)
    × AreChunks config (codes "one two") chunks
chunk_text_positions_example =
    chunk_text_positions text_discrete 10 (codes "one two") config (λ e. cc) (λ e. omega arith)
      (omega arith)

chunk_text_terminates_example :
    ((chunks : TextChunks) × (chunk_text text_discrete 10
          (codes "one two")
          (record config { chunk_overlap = 4 })
        ≡ some chunks))
    ↔ (codes "fixed" ≢ codes "fixed" ⊎ (length (codes "one two") ≡ 0 ⊎ 4 < 4))
chunk_text_terminates_example =
    chunk_text_terminates text_discrete 10 (codes "one two") (record config { chunk_overlap = 4 })
      (omega arith)

abbrev piece : Text → ℕ → ℕ → TextChunk
piece text index offset = record { text = text; chunk_index = index; char_offset = pos offset }

-- The inner chunks are numbered 0, 8, 16: each call around them counts them once more.
gaps :
    chunk_recursive 9 (codes "aa bb cc") by_separators
    ≡ some (piece (codes "aa") 0 0 ∷ piece (codes "bb") 8 3 ∷ piece (codes "cc") 16 6 ∷ [])
unfolding chunk_recursive
gaps = refl

-- A part longer than the size becomes one chunk, where another part follows.
oversize :
    chunk_recursive 9 (codes "abcdef\n\ngh") by_separators
    ≡ some (piece (codes "abcdef") 0 0 ∷ piece (codes "gh") 1 8 ∷ [])
unfolding chunk_recursive
oversize = refl

semantic :
    chunk_semantic (codes "Dr. A. B") (record by_separators { chunk_size = 7 })
    ≡ piece (codes "Dr. A.") 0 0 ∷ piece (codes "B") 1 7 ∷ []
unfolding chunk_semantic
semantic = refl
