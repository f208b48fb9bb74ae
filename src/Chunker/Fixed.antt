-- ===== src/Chunker/Fixed.antt =====
-- core/bitmod/ingestion/chunker.py: `_chunk_fixed`, whose window moves by the size less the overlap.
use bit_mod_ai_inference_cac.Chunker.Numbering.{append_chunk-Kept, Kept, Within}
use bit_mod_ai_inference_cac.Strings.Pieces.{Piece-trans, strip-piece, Piece}
use bit_mod_ai_inference_cac.Chunker.{
  negsuc, append_chunk, slice_index, pos, suc, slice, is_below, TextChunks, ℤ, fixed_loop, strip,
  ChunkConfig,
}
use bit_mod_ai_inference_cac.Strings.{Text}
use bit_mod_ai_inference_cac.Prelude.{
  leb, ◌⊎◌, inr, ⊖-pos, ltb→lt, inl, ltb, Bool-cases, ◌-◌, [], length-take, zero, arith, none, some,
  ◌∙◌, ◌∷◌, true, ap, refl, ◌+◌, sym, ◌≡◌, drop, length, ◌++◌, ◌<◌, ◌≤◌, take, ℕ,
}
use bit_mod_ai_inference_cac.Prelude.{◌+ℤ◌, ◌⊖◌}

take-drop : (n : ℕ) (t : Text) → take n t ++ drop n t ≡ t
take-drop zero t = refl
take-drop (suc n) [] = refl
take-drop (suc n) (c ∷ t) = ap (λ s. c ∷ s) (take-drop n t)

take-Piece : (t : Text) (i k : ℕ) → i ≤ length t → Piece t i (take k (drop i t))
take-Piece t i k h = (
  take i t,
  drop k (drop i t),
  sym (ap (λ s. take i t ++ s) (take-drop k (drop i t)) ∙ take-drop i t),
  omega (arith, length-take i t),
)

pub strip-Piece : (t : Text) → (n : ℕ) × Piece t n (strip t)
strip-Piece t = let (pre, post, e) = strip-piece t in (length pre, (pre, post, e, refl))

is_below-add_negsuc :
    (start : ℤ) (k n : ℕ) → is_below start n ≡ true → is_below (start +ℤ negsuc k) n ≡ true
is_below-add_negsuc (pos i) k n h = ground arith
is_below-add_negsuc (negsuc i) k n h = refl

is_below-add_0 : (start : ℤ) (n : ℕ) → is_below start n ≡ true → is_below (start +ℤ pos 0) n ≡ true
is_below-add_0 (pos i) n h = ground arith
is_below-add_0 (negsuc i) n h = ground arith

⊖-IsBack : (a b : ℕ) → a ≤ b → ((a ⊖ b) ≡ pos 0) ⊎ ((k : ℕ) × ((a ⊖ b) ≡ negsuc k))
⊖-IsBack a b h = elim (Bool-cases (leb b a)) [
  | inl e ↦ inl (ground arith)
  | inr e ↦ inr (b - a - 1, rw e refl)
]

module _ (config : ChunkConfig) (text : Text) where
  window-Within :
      (i index : ℕ)
      → i < length text
      → Within text (record {
        text = strip (slice text (pos i) (pos i +ℤ pos config.chunk_size));
        chunk_index = index;
        char_offset = pos i;
      })
  window-Within i index h =
      let from = slice_index (length text) (pos i) in
      let window = slice text (pos i) (pos i +ℤ pos config.chunk_size) in
      let (n, stripped) = strip-Piece window in
      (
        i,
        from + n,
        refl,
        omega arith,
        Piece-trans text window (strip window) from n (take-Piece text from _ (omega arith))
            stripped,
      )

  module _ (moves : config.chunk_overlap < config.chunk_size) where
    pub fixed_loop-returns :
        (fuel i : ℕ) (chunks : TextChunks)
        → length text - i < fuel
        → Kept config text chunks
        → (r : TextChunks) × (fixed_loop config text fuel (pos i) chunks ≡ some r)
          × Kept config text r
    unfolding fixed_loop
    fixed_loop-returns zero i chunks h k = absurd (omega arith)
    fixed_loop-returns (suc fuel) i chunks h k = elim (Bool-cases (ltb i (length text))) [
      | inl e ↦
          let more : i < length text = ltb→lt i (length text) e in
          let next =
            append_chunk config (strip (slice text (pos i) (pos i +ℤ pos config.chunk_size)))
              (pos i) chunks in
          let (r, same, kept) =
            fixed_loop-returns fuel (i + (config.chunk_size - config.chunk_overlap)) next
              (omega arith)
              (append_chunk-Kept config text _ (pos i) chunks (window-Within i (length chunks) more)
                k) in
          (r, rw (e, ⊖-pos config.chunk_size config.chunk_overlap (omega arith)) same, kept)
      | inr e ↦ (chunks, rw e refl, k)
    ]

  module _ (stays : config.chunk_size ≤ config.chunk_overlap) where
    is_below-back :
        (start : ℤ)
        → is_below start (length text) ≡ true
        → is_below (start +ℤ (config.chunk_size ⊖ config.chunk_overlap)) (length text) ≡ true
    is_below-back start h = elim (⊖-IsBack config.chunk_size config.chunk_overlap stays) [
      | inl e ↦ rw e (is_below-add_0 start (length text) h)
      | inr (k, e) ↦ rw e (is_below-add_negsuc start k (length text) h)
    ]

    pub fixed_loop-none :
        (fuel : ℕ) (start : ℤ) (chunks : TextChunks)
        → is_below start (length text) ≡ true
        → fixed_loop config text fuel start chunks ≡ none
    unfolding fixed_loop
    fixed_loop-none zero start chunks h = refl
    fixed_loop-none (suc fuel) start chunks h =
        rw h (fixed_loop-none fuel _ _ (is_below-back start h))
