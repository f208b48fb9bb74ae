-- ===== src/Chunker/Recursive.antt =====
-- core/bitmod/ingestion/chunker.py: `_recursive_split`, its chunks and those of its inner calls.
use bit_mod_ai_inference_cac.Chunker.Fixed.{strip-Piece}
use bit_mod_ai_inference_cac.Chunker.Overlap.{
  strip-Within, start_overlap-Gathers, add_to_current-Gathers, Gathers-Piece, Gathers,
}
use bit_mod_ai_inference_cac.Strings.Pieces.{join_with-split, Piece-trans, Piece}
use bit_mod_ai_inference_cac.Chunker.Numbering.{
  append_chunk-Kept, Ascending-weaken, IsChunkOf, Numbered-Ascending, Kept, Ascending,
}
use bit_mod_ai_inference_cac.Chunker.{
  with_sub_chunks, append_chunk, strip, join_with, nothing_gathered, split, pos, Gathering, is_nil,
  recursive_split, split_parts, split_part, TextChunks, Text, append_sub_chunks, ChunkConfig,
}
use mathlib.Core.List.{append-nil, append_assoc}
use mathlib.Core.Path.{subst}
use bit_mod_ai_inference_cac.Prelude.{
  All-append, Option, inr, inl, ◌∙◌, ◌&&◌, ap, length-append, ltb, refl, some, sym, Bool-cases, ◌≢◌,
  [], arith, length, suc, true, All, ◌≤◌, ◌++◌, ◌+◌, ◌≡◌, ◌∷◌, not, ℕ, ℤ, List, ◌+ℤ◌,
}

not_nil :
    (parts : List Text)
    → not (is_nil parts) ≡ true
    → (p : Text) × (ps : List Text) × (parts ≡ p ∷ ps)
not_nil [] h = cc
not_nil (p ∷ ps) h = (p, ps, refl)

module _ (config : ChunkConfig) (text sep : Text) where
  split_part-Gathers :
      (part : Text) (parts : List Text) (g : Gathering)
      → Gathers config text sep (part ∷ parts) g
      → Gathers config text sep parts (split_part config sep part g)
  unfolding split_part
  split_part-Gathers part parts g (pre, same, offset, len, kept) =
      elim (Bool-cases (
        ltb config.chunk_size (g.current_len + (length part + length sep))
        && not (is_nil g.current_parts))) [
          | inl e ↦
              let (p, ps, cons) = not_nil g.current_parts (ground arith) in
              let chunk = join_with sep g.current_parts in
              let piece : Piece text (length pre) chunk = rw cons (
                Gathers-Piece config text sep p ps part parts pre
                  (same ∙ ap (λ s. pre ++ join_with sep (s ++ part ∷ parts)) cons)) in
              rw e (
                add_to_current-Gathers config text sep part parts _ (
                  start_overlap-Gathers config text sep part parts g _
                    (pre, same, offset, len, kept)
                    (append_chunk-Kept config text (strip chunk) g.char_offset g.chunks
                      (strip-Within config text sep (length g.chunks) (length pre) g.char_offset
                        chunk offset piece)
                      kept)))
          | inr e ↦
              rw e
                (add_to_current-Gathers config text sep part parts g (pre, same, offset, len, kept))
        ]

  pub split_parts-Gathers :
      (parts : List Text) (g : Gathering)
      → Gathers config text sep parts g
      → Gathers config text sep [] (split_parts config sep parts g)
  unfolding split_parts
  split_parts-Gathers [] g h = h
  split_parts-Gathers (part ∷ parts) g h =
      split_parts-Gathers parts (split_part config sep part g) (split_part-Gathers part parts g h)

-- Chunks of a piece of the text, as `_recursive_split` renumbers them.
abbrev pub renumbered : ℤ → ℕ → TextChunks → TextChunks
renumbered offset n [] = []
renumbered offset n (sc ∷ sub_chunks) =
    (record sc { chunk_index = n + sc.chunk_index; char_offset = sc.char_offset +ℤ offset })
    ∷ renumbered offset (suc n) sub_chunks

append_sub_chunks-eq-append :
    (config : ChunkConfig) (offset : ℤ) (chunks sub_chunks : TextChunks)
    → append_sub_chunks config offset chunks sub_chunks
      ≡ chunks ++ renumbered offset (length chunks) sub_chunks
unfolding append_sub_chunks
append_sub_chunks-eq-append config offset chunks [] = sym (append-nil chunks)
append_sub_chunks-eq-append config offset chunks (sc ∷ sub_chunks) =
    let c = record sc {
      chunk_index = length chunks + sc.chunk_index;
      char_offset = sc.char_offset +ℤ offset;
    } in
    let longer : length (chunks ++ c ∷ []) ≡ suc (length chunks) =
      omega (arith, length-append chunks (c ∷ [])) in
    append_sub_chunks-eq-append config offset (chunks ++ c ∷ []) sub_chunks
    ∙ rw longer (append_assoc chunks (c ∷ []) _)

renumbered-Ascending :
    (offset : ℤ) (n lo : ℕ) (sub_chunks : TextChunks)
    → Ascending lo sub_chunks
    → Ascending (n + lo) (renumbered offset n sub_chunks)
renumbered-Ascending offset n lo [] h = tt
renumbered-Ascending offset n lo (sc ∷ sub_chunks) h = (
  omega arith,
  Ascending-weaken (suc (n + sc.chunk_index)) (suc n + suc sc.chunk_index)
      (renumbered offset (suc n) sub_chunks) (omega arith)
      (renumbered-Ascending offset (suc n) (suc sc.chunk_index) sub_chunks h.1),
)

module _ (config : ChunkConfig) (text inner : Text) (at m : ℕ) (piece : Piece text m inner)
    (behind : at ≤ m) where
  renumbered-IsChunkOf :
      (n : ℕ) (sub_chunks : TextChunks)
      → All (IsChunkOf config inner) sub_chunks
      → All (IsChunkOf config text) (renumbered (pos at) n sub_chunks)
  renumbered-IsChunkOf n [] h = tt
  renumbered-IsChunkOf n (sc ∷ sub_chunks) ((size, (o, k, offset, before, inside)), h) = (
    (
      size,
      (
        o + at,
        m + k,
        ap (λ z. z +ℤ pos at) offset,
        omega arith,
        Piece-trans text inner sc.text m k piece inside,
      ),
    ),
    renumbered-IsChunkOf (suc n) sub_chunks h,
  )

-- The chunks that a text is cut into.
abbrev pub AreChunks : ChunkConfig → Text → TextChunks → Type 0
AreChunks config text chunks = Ascending 0 chunks × All (IsChunkOf config text) chunks

pub Kept-AreChunks :
    (config : ChunkConfig) (text : Text) (chunks : TextChunks)
    → Kept config text chunks
    → AreChunks config text chunks
Kept-AreChunks config text chunks (num, all) =
    (subst (Ascending 0) (append-nil chunks) (Numbered-Ascending 0 chunks [] num tt), all)

abbrev pub gathered : ChunkConfig → Text → Text → Gathering
gathered config sep text = split_parts config sep (split sep text) nothing_gathered

-- What is left to cut once the parts are gathered.
left_over :
    (config : ChunkConfig) (sep text : Text)
    → sep ≢ []
    → let g = gathered config sep text in
      (n : ℕ) × (g.char_offset ≡ pos n)
      × Piece text n (join_with sep g.current_parts)
      × Kept config text g.chunks
left_over config sep text h =
    let g = gathered config sep text in
    let (pre, same, offset, len, kept) =
      split_parts-Gathers config text sep (split sep text) nothing_gathered
        ([], sym (join_with-split sep text h), refl, refl, (tt, tt)) in
    (
      length pre,
      offset,
      (
        pre,
        [],
        same
            ∙ ap (λ ps. pre ++ join_with sep ps) (append-nil g.current_parts)
            ∙ ap (λ s. pre ++ s) (sym (append-nil (join_with sep g.current_parts))),
        refl,
      ),
      kept,
    )

-- The chunks of an inner call, behind those before them.
with_sub_chunks-AreChunks :
    (config : ChunkConfig) (text raw : Text) (n : ℕ) (g : Gathering) (o : Option TextChunks)
    (sub_chunks : TextChunks)
    → g.char_offset ≡ pos n
    → Piece text n raw
    → Kept config text g.chunks
    → o ≡ some sub_chunks
    → AreChunks config (strip raw) sub_chunks
    → (chunks : TextChunks) × (with_sub_chunks config g o ≡ some chunks)
      × AreChunks config text chunks
with_sub_chunks-AreChunks config text raw n g o sub_chunks offset piece (num, all) e (up, inner) =
    let (m, stripped) = strip-Piece raw in
    let more = renumbered (pos n) (length g.chunks) sub_chunks in
    (
      g.chunks ++ more,
      rw (e, offset) (ap some (append_sub_chunks-eq-append config (pos n) g.chunks sub_chunks)),
      (
        Numbered-Ascending 0 g.chunks more num (
            Ascending-weaken (0 + length g.chunks) (length g.chunks + 0) more (omega arith)
              (renumbered-Ascending (pos n) (length g.chunks) 0 sub_chunks up)),
        All-append (IsChunkOf config text) g.chunks more all (
            renumbered-IsChunkOf config text (strip raw) n (n + m)
              (Piece-trans text raw (strip raw) n m piece stripped) (omega arith) (length g.chunks)
              sub_chunks inner),
      ),
    )

-- The last chunk, where nothing is cut further.
last-AreChunks :
    (config : ChunkConfig) (text sep raw : Text) (n : ℕ) (g : Gathering)
    → g.char_offset ≡ pos n
    → Piece text n raw
    → Kept config text g.chunks
    → AreChunks config text (append_chunk config (strip raw) g.char_offset g.chunks)
last-AreChunks config text sep raw n g offset piece kept = Kept-AreChunks config text _ (
    append_chunk-Kept config text (strip raw) g.char_offset g.chunks
      (strip-Within config text sep (length g.chunks) n g.char_offset raw offset piece) kept)

module _ (config : ChunkConfig) (fuel : ℕ) where
  pub recursive_split-returns :
      (sep : Text) (seps : List Text) (text : Text)
      → All (λ s. s ≢ []) (sep ∷ seps)
      → (chunks : TextChunks) × (recursive_split config fuel (sep ∷ seps) text ≡ some chunks)
        × AreChunks config text chunks
  unfolding recursive_split
  recursive_split-returns sep [] text h =
      let g = gathered config sep text in
      let raw = join_with sep g.current_parts in
      let (n, offset, piece, kept) = left_over config sep text h.0 in
      elim (Bool-cases (is_nil g.current_parts)) [
        | inl e ↦ (g.chunks, rw e refl, Kept-AreChunks config text g.chunks kept)
        | inr e ↦ (
          append_chunk config (strip raw) g.char_offset g.chunks,
          ground arith,
          last-AreChunks config text sep raw n g offset piece kept,
        )
      ]
  recursive_split-returns sep (next ∷ seps) text h =
      let g = gathered config sep text in
      let raw = join_with sep g.current_parts in
      let (n, offset, piece, kept) = left_over config sep text h.0 in
      let (sub_chunks, returns, inner) = recursive_split-returns next seps (strip raw) h.1 in
      let (chunks, deeper, good) =
        with_sub_chunks-AreChunks config text raw n g
          (recursive_split config fuel (next ∷ seps) (strip raw)) sub_chunks offset piece kept
          returns inner in
      elim (Bool-cases (is_nil g.current_parts)) [
        | inl e ↦ (g.chunks, rw e refl, Kept-AreChunks config text g.chunks kept)
        | inr e ↦ elim (Bool-cases (ltb config.chunk_size (length (strip raw)))) [
          | inl more ↦ (chunks, rw (e, more) deeper, good)
          | inr done ↦ (
            append_chunk config (strip raw) g.char_offset g.chunks,
            rw (e, done) refl,
            last-AreChunks config text sep raw n g offset piece kept,
          )
        ]
      ]
