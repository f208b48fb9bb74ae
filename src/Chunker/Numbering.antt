-- ===== src/Chunker/Numbering.antt =====
-- What the loops of core/bitmod/ingestion/chunker.py keep of the chunks they have gathered.
use bit_mod_ai_inference_cac.Strings.Pieces.{Piece}
use bit_mod_ai_inference_cac.Prelude.{
  inr, leb→le, All-append, inl, leb, Bool-cases, [], arith, ◌++◌, suc, length, All, ◌+◌, ◌∷◌, ◌≤◌,
  ◌≡◌, ℕ,
}
use bit_mod_ai_inference_cac.Chunker.{append_chunk, pos, ℤ, TextChunks, TextChunk, ChunkConfig}
use bit_mod_ai_inference_cac.Strings.{Text}

-- The chunk's text stands in the text, at its offset or behind it.
abbrev pub Within : Text → TextChunk → Type 0
Within text c = (o : ℕ) × (n : ℕ) × (c.char_offset ≡ pos o) × (o ≤ n) × Piece text n c.text

abbrev pub IsChunkOf : ChunkConfig → Text → TextChunk → Type 0
IsChunkOf config text c = (config.min_chunk_size ≤ length c.text) × Within text c

-- Numbered by their places.
abbrev pub Numbered : ℕ → TextChunks → Type 0
Numbered n [] = Unit
Numbered n (c ∷ chunks) = (c.chunk_index ≡ n) × Numbered (suc n) chunks

-- Numbered upwards, with gaps.
abbrev pub Ascending : ℕ → TextChunks → Type 0
Ascending n [] = Unit
Ascending n (c ∷ chunks) = (n ≤ c.chunk_index) × Ascending (suc c.chunk_index) chunks

pub Numbered-snoc :
    (n : ℕ) (chunks : TextChunks) (c : TextChunk)
    → Numbered n chunks
    → c.chunk_index ≡ n + length chunks
    → Numbered n (chunks ++ c ∷ [])
Numbered-snoc n [] c h e = (omega arith, tt)
Numbered-snoc n (d ∷ chunks) c h e = (h.0, Numbered-snoc (suc n) chunks c h.1 (omega arith))

pub Ascending-weaken :
    (m n : ℕ) (chunks : TextChunks) → m ≤ n → Ascending n chunks → Ascending m chunks
Ascending-weaken m n [] h a = tt
Ascending-weaken m n (c ∷ chunks) h a = (omega arith, a.1)

pub Numbered-Ascending :
    (n : ℕ) (chunks more : TextChunks)
    → Numbered n chunks
    → Ascending (n + length chunks) more
    → Ascending n (chunks ++ more)
Numbered-Ascending n [] more h a = Ascending-weaken n (n + 0) more (omega arith) a
Numbered-Ascending n (c ∷ chunks) more h a = (
  omega arith,
  Numbered-Ascending (suc c.chunk_index) chunks more (rw h.0 h.1) (
      Ascending-weaken (suc c.chunk_index + length chunks) (n + length (c ∷ chunks)) more
        (omega arith) a),
)

module _ (config : ChunkConfig) (text : Text) where
  abbrev pub Kept : TextChunks → Type 0
  Kept chunks = Numbered 0 chunks × All (IsChunkOf config text) chunks

  pub append_chunk-Kept :
      (piece : Text) (offset : ℤ) (chunks : TextChunks)
      → Within text (record { text = piece; chunk_index = length chunks; char_offset = offset })
      → Kept chunks
      → Kept (append_chunk config piece offset chunks)
  append_chunk-Kept piece offset chunks w (num, all) =
      let c : TextChunk = record {
        text = piece;
        chunk_index = length chunks;
        char_offset = offset;
      } in
      elim (Bool-cases (leb config.min_chunk_size (length piece))) [
        | inl e ↦ rw e (
          Numbered-snoc 0 chunks c num (omega arith),
          All-append (IsChunkOf config text) chunks (c ∷ []) all
              ((leb→le config.min_chunk_size (length piece) e, w), tt),
        )
        | inr e ↦ rw e (num, all)
      ]
