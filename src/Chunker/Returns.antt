-- ===== src/Chunker/Returns.antt =====
-- core/bitmod/ingestion/chunker.py: `chunk_text` by its strategy, when it returns and what.
use bit_mod_ai_inference_cac.Chunker.Fixed.{fixed_loop-none, fixed_loop-returns, strip-Piece}
use bit_mod_ai_inference_cac.Chunker.Numbering.{Kept}
use bit_mod_ai_inference_cac.Chunker.Recursive.{recursive_split-returns, Kept-AreChunks, AreChunks}
use bit_mod_ai_inference_cac.Strings.{Text}
use bit_mod_ai_inference_cac.Chunker.{
  chunk_semantic, pos, strip, is_blank, suc, codes, TextChunks, separators, ChunkConfig, chunk_text,
  fixed_loop, chunk_fixed, chunk_recursive,
}
use bit_mod_ai_inference_cac.Prelude.{
  ℕ_discrete, lt→ltb, dec_lt, inr, leb→le, ◌∷◌, ◌&&◌, not, inl, refl, leb, zero, equal_iff,
  Bool-cases, ◌⊎◌, ◌↔◌, arith, none, some, ◌≡◌, length, ◌≤◌, ◌<◌, [], ℕ, ◌≢◌, All,
}

separators-Filled : All (λ s. s ≢ []) separators
separators-Filled = (
  (λ e. cc),
  ((λ e. cc), ((λ e. cc), ((λ e. cc), ((λ e. cc), ((λ e. cc), ((λ e. cc), ((λ e. cc), tt))))))),
)

chunk_recursive-returns :
    (fuel : ℕ) (text : Text) (config : ChunkConfig)
    → (chunks : TextChunks) × (chunk_recursive fuel text config ≡ some chunks)
      × AreChunks config text chunks
unfolding chunk_recursive
chunk_recursive-returns fuel text config =
    let (n, piece) = strip-Piece text in
    elim (Bool-cases (leb (length text) config.chunk_size)) [
      | inl e ↦
          elim (Bool-cases
            (not (is_blank (strip text)) && leb config.min_chunk_size (length (strip text)))) [
              | inl filled ↦ (
                (record { text = strip text; chunk_index = 0; char_offset = pos 0 }) ∷ [],
                rw (e, filled) refl,
                (
                  (omega arith, tt),
                  ((leb→le _ _ (ground arith), (0, n, refl, omega arith, piece)), tt),
                ),
              )
              | inr small ↦ ([], rw (e, small) refl, (tt, tt))
            ]
      | inr e ↦
          let (chunks, returns, good) =
            recursive_split-returns config fuel (codes "\n\n")
              (codes "\n"
                ∷ codes ". "
                ∷ codes "! "
                ∷ codes "? "
                ∷ codes "; "
                ∷ codes ", "
                ∷ codes " "
                ∷ [])
              text separators-Filled in
          (chunks, rw e returns, good)
    ]

chunk_fixed-returns :
    (fuel : ℕ) (text : Text) (config : ChunkConfig)
    → config.chunk_overlap < config.chunk_size
    → length text < fuel
    → (chunks : TextChunks) × (chunk_fixed fuel text config ≡ some chunks) × Kept config text chunks
unfolding chunk_fixed
chunk_fixed-returns fuel text config moves h =
    fixed_loop-returns config text moves fuel 0 [] (omega arith) (tt, tt)

chunk_fixed-none :
    (fuel : ℕ) (text : Text) (config : ChunkConfig)
    → config.chunk_size ≤ config.chunk_overlap
    → 0 < length text
    → chunk_fixed fuel text config ≡ none
unfolding chunk_fixed
chunk_fixed-none fuel text config stays h =
    fixed_loop-none config text stays fuel (pos 0) [] (lt→ltb 0 (length text) h)

chunk_fixed-empty :
    (fuel : ℕ) (text : Text) (config : ChunkConfig)
    → length text ≡ 0
    → 0 < fuel
    → chunk_fixed fuel text config ≡ some []
unfolding chunk_fixed fixed_loop
chunk_fixed-empty zero text config e h = absurd (omega arith)
chunk_fixed-empty (suc fuel) text config e h = rw e refl

module _ (dec : Discrete Text) where
  -- Where the strategy is not `semantic` and the windows of `fixed` move, `chunk_text` returns, with fuel
  -- above the text's length. Its chunks are numbered upwards, none is shorter than the minimum, and each
  -- one's text stands in the text, at its offset or behind it.
  pub chunk_text_positions :
      (fuel : ℕ) (text : Text) (config : ChunkConfig)
      → config.strategy ≢ codes "semantic"
      → (config.strategy ≡ codes "fixed" → config.chunk_overlap < config.chunk_size)
      → length text < fuel
      → (chunks : TextChunks) × (chunk_text dec fuel text config ≡ some chunks)
        × AreChunks config text chunks
  unfolding chunk_text
  chunk_text_positions fuel text config other moves h = elim (dec config.strategy (codes "fixed")) [
    | yes e ↦
        let (chunks, returns, kept) = chunk_fixed-returns fuel text config (moves e) h in
        (chunks, ground arith, Kept-AreChunks config text chunks kept)
    | no differs ↦
        let (chunks, returns, good) = chunk_recursive-returns fuel text config in
        (chunks, ground (arith, equal_iff dec config.strategy), good)
  ]

  -- With fuel above the text's length, `chunk_text` returns exactly when the strategy is not `fixed`, or the
  -- text is empty, or the overlap is below the chunk size: in every other case it runs for ever.
  pub chunk_text_terminates :
      (fuel : ℕ) (text : Text) (config : ChunkConfig)
      → length text < fuel
      → ((chunks : TextChunks) × (chunk_text dec fuel text config ≡ some chunks)) ↔ (
          config.strategy ≢ codes "fixed"
          ⊎ (length text ≡ 0 ⊎ config.chunk_overlap < config.chunk_size))
  unfolding chunk_text
  chunk_text_terminates fuel text config h = elim (dec config.strategy (codes "fixed")) [
    | yes e ↦
        let same : chunk_text dec fuel text config ≡ chunk_fixed fuel text config = ground arith in
        rw same (elim (dec_lt config.chunk_overlap config.chunk_size) [
          | yes moves ↦
              let (chunks, returns, kept) = chunk_fixed-returns fuel text config moves h in
              ((λ r. inr (inr moves)), (λ c. (chunks, returns)))
          | no stays ↦ elim (ℕ_discrete (length text) 0) [
            | yes empty ↦ (
              (λ r. inr (inl empty)),
              (λ c. ([], chunk_fixed-empty fuel text config empty (omega arith))),
            )
            | no filled ↦
                let never = chunk_fixed-none fuel text config (omega arith) (omega arith) in
                ((λ (chunks, r). absurd (ground arith)), (λ c. absurd (ground arith)))
          ]
        ])
    | no differs ↦
        let (chunks, returns, good) = chunk_recursive-returns fuel text config in
        (
          (λ r. inl differs),
          λ c. elim (dec config.strategy (codes "semantic")) [
            | yes e ↦ (chunk_semantic text config, ground (arith, equal_iff dec config.strategy))
            | no other ↦ (chunks, ground (arith, equal_iff dec config.strategy))
          ],
        )
  ]
