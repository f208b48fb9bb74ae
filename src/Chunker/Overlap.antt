-- ===== src/Chunker/Overlap.antt =====
-- core/bitmod/ingestion/chunker.py: the parts that `_recursive_split` carries over, and its offset.
use bit_mod_ai_inference_cac.Chunker.Fixed.{strip-Piece}
use bit_mod_ai_inference_cac.Chunker.Numbering.{Within, Kept}
use bit_mod_ai_inference_cac.Strings.Pieces.{Piece-trans, Piece, join_with-append, ended_with}
use bit_mod_ai_inference_cac.Chunker.{
  strip, TextChunks, add_to_current, pos, ℤ, start_overlap, Gathering, reverse_onto, ChunkConfig,
  keep_overlap,
}
use bit_mod_ai_inference_cac.Strings.{join_with, Text}
use mathlib.Core.List.{append-nil, append_assoc}
use bit_mod_ai_inference_cac.Prelude.{
  inr, ⊖-pos, inl, refl, ◌∙◌, sym, ltb, length-append, ap, [], Bool-cases, arith, ◌+◌, ◌≡◌, length,
  ◌++◌, ◌∷◌, List, ℕ,
}

-- The length of the parts, each with what joins it to the next.
abbrev pub weight : ℕ → List Text → ℕ
weight width [] = 0
weight width (p ∷ ps) = (length p + width) + weight width ps

pub weight-append :
    (width : ℕ) (ps qs : List Text) → weight width (ps ++ qs) ≡ weight width ps + weight width qs
weight-append width [] qs = omega arith
weight-append width (p ∷ ps) qs = omega (arith, weight-append width ps qs)

length-ended_with :
    (sep : Text) (ps : List Text) → length (ended_with sep ps) ≡ weight (length sep) ps
length-ended_with sep [] = refl
length-ended_with sep (p ∷ ps) = omega (
  arith,
  length-append p (sep ++ ended_with sep ps),
  length-append sep (ended_with sep ps),
  length-ended_with sep ps,
)

reverse_onto-reverse_onto :
    (ps qs rs : List Text) → reverse_onto (reverse_onto ps qs) rs ≡ reverse_onto qs (ps ++ rs)
reverse_onto-reverse_onto [] qs rs = refl
reverse_onto-reverse_onto (p ∷ ps) qs rs = reverse_onto-reverse_onto ps (p ∷ qs) rs

reverse_onto-append : (ps qs rs : List Text) → reverse_onto ps (qs ++ rs) ≡ reverse_onto ps qs ++ rs
reverse_onto-append [] qs rs = refl
reverse_onto-append (p ∷ ps) qs rs = reverse_onto-append ps (p ∷ qs) rs

keep_overlap_lem :
    (config : ChunkConfig) (width : ℕ) (ps parts : List Text) (size : ℕ)
    → size ≡ weight width parts
    → let kept = keep_overlap config width ps parts size in
      (dropped : List Text) × (reverse_onto ps parts ≡ dropped ++ kept.0)
      × (kept.1 ≡ weight width kept.0)
unfolding keep_overlap
keep_overlap_lem config width [] parts size h = ([], refl, h)
keep_overlap_lem config width (p ∷ ps) parts size h =
    elim (Bool-cases (ltb config.chunk_overlap (size + length p))) [
      | inl e ↦ rw e (reverse_onto ps (p ∷ []), reverse_onto-append ps (p ∷ []) parts, h)
      | inr e ↦
          rw e
            (keep_overlap_lem config width ps (p ∷ parts) (size + (length p + width)) (omega arith))
    ]

-- The parts are those dropped, then those kept.
pub keep_overlap-suffix :
    (config : ChunkConfig) (width : ℕ) (parts : List Text)
    → let kept = keep_overlap config width (reverse_onto parts []) [] 0 in
      (dropped : List Text) × (parts ≡ dropped ++ kept.0) × (kept.1 ≡ weight width kept.0)
keep_overlap-suffix config width parts =
    let (dropped, e, w) = keep_overlap_lem config width (reverse_onto parts []) [] 0 refl in
    (dropped, sym (append-nil parts) ∙ sym (reverse_onto-reverse_onto parts [] []) ∙ e, w)

join_with-suffix :
    (sep : Text) (ds ks : List Text) (q : Text) (qs : List Text)
    → join_with sep ((ds ++ ks) ++ q ∷ qs) ≡ ended_with sep ds ++ join_with sep (ks ++ q ∷ qs)
join_with-suffix sep ds [] q qs = simp (append-nil) (join_with-append sep ds q qs)
join_with-suffix sep ds (k ∷ ks) q qs =
    simp (append_assoc) (join_with-append sep ds k (ks ++ q ∷ qs))

ended_with-join_with :
    (sep p : Text) (ps : List Text) → ended_with sep (p ∷ ps) ≡ join_with sep (p ∷ ps) ++ sep
unfolding join_with
ended_with-join_with sep p [] = ap (λ s. p ++ s) (append-nil sep)
ended_with-join_with sep p (q ∷ ps) =
    ap (λ s. p ++ (sep ++ s)) (ended_with-join_with sep q ps) ∙ simp (append_assoc)

module _ (config : ChunkConfig) (text sep : Text) where
  -- The text from the offset on is the current parts and the parts to come, joined.
  abbrev pub Gathers : List Text → Gathering → Type 0
  Gathers ps g =
      (pre : Text) × (text ≡ pre ++ join_with sep (g.current_parts ++ ps))
      × (g.char_offset ≡ pos (length pre))
      × (g.current_len ≡ weight (length sep) g.current_parts)
      × Kept config text g.chunks

  pub add_to_current-Gathers :
      (part : Text) (ps : List Text) (g : Gathering)
      → Gathers (part ∷ ps) g
      → Gathers ps (add_to_current part (length part + length sep) g)
  add_to_current-Gathers part ps g (pre, same, offset, len, kept) = (
    pre,
    rw (append_assoc g.current_parts (part ∷ []) ps) same,
    offset,
    omega (arith, weight-append (length sep) g.current_parts (part ∷ [])),
    kept,
  )

  pub start_overlap-Gathers :
      (q : Text) (qs : List Text) (g : Gathering) (chunks : TextChunks)
      → Gathers (q ∷ qs) g
      → Kept config text chunks
      → Gathers (q ∷ qs) (start_overlap config (length sep) chunks g)
  unfolding start_overlap
  start_overlap-Gathers q qs g chunks (pre, same, offset, len, old) kept =
      let (dropped, parts, size) = keep_overlap-suffix config (length sep) g.current_parts in
      let back = keep_overlap config (length sep) (reverse_onto g.current_parts []) [] 0 in
      let total : g.current_len ≡ weight (length sep) dropped + back.1 =
        omega (arith, ap (weight (length sep)) parts, weight-append (length sep) dropped back.0) in
      (
        pre ++ ended_with sep dropped,
        same
            ∙ ap (λ s. pre ++ join_with sep (s ++ q ∷ qs)) parts
            ∙ ap (λ s. pre ++ s) (join_with-suffix sep dropped back.0 q qs)
            ∙ sym (append_assoc pre (ended_with sep dropped) _),
        rw (offset, ⊖-pos g.current_len back.1 (omega arith))
            (ap pos (
              omega (
                arith,
                length-append pre (ended_with sep dropped),
                length-ended_with sep dropped,
              ))),
        size,
        kept,
      )

  -- The text of a chunk, at the offset of the loop.
  pub strip-Within :
      (index n : ℕ) (offset : ℤ) (piece : Text)
      → offset ≡ pos n
      → Piece text n piece
      → Within text (record { text = strip piece; chunk_index = index; char_offset = offset })
  strip-Within index n offset piece e p =
      let (m, stripped) = strip-Piece piece in
      (n, n + m, e, omega arith, Piece-trans text piece (strip piece) n m p stripped)

  pub Gathers-Piece :
      (p : Text) (ps : List Text) (q : Text) (qs : List Text) (pre : Text)
      → text ≡ pre ++ join_with sep ((p ∷ ps) ++ q ∷ qs)
      → Piece text (length pre) (join_with sep (p ∷ ps))
  Gathers-Piece p ps q qs pre same = (
    pre,
    sep ++ join_with sep (q ∷ qs),
    same
        ∙ ap (λ s. pre ++ s)
            (join_with-append sep (p ∷ ps) q qs
              ∙ ap (λ s. s ++ join_with sep (q ∷ qs)) (ended_with-join_with sep p ps)
              ∙ append_assoc (join_with sep (p ∷ ps)) sep (join_with sep (q ∷ qs))),
    refl,
  )
