-- ===== src/Chunker.antt =====
-- core/bitmod/ingestion/chunker.py: the three strategies, `chunk_text` and `chunk_sections`. Sizes are
-- natural numbers; offsets are integers. `metadata`, which nothing here sets, is left out. A `while`
-- loop takes fuel; `none` means that the fuel has run out.
pub mod Sentences
pub mod Numbering
pub mod Fixed
pub mod Overlap
pub mod Recursive
pub mod Returns
use bit_mod_ai_inference_cac.Chunker.Sentences.{split_sentences}
use bit_mod_ai_inference_cac.Prelude.{
  drop, zero, ◌||◌, not, ◌&&◌, ◌-◌, false, ◌==◌, suc, some, ◌++◌, true, ◌+◌, none, ltb, take, min,
  leb, Bool, Option, ◌∷◌, [], length, if◌then◌else◌, List, ℕ, equal, ℤ, pos, negsuc, ◌+ℤ◌, ◌⊖◌,
}
use bit_mod_ai_inference_cac.Strings.{
  is_space, push, is_blank, starts_with, split, join_with, strip, codes, Text,
}

pub record ChunkConfig : Type 0 where
  pub chunk_size : ℕ
  pub chunk_overlap : ℕ
  pub min_chunk_size : ℕ
  pub strategy : Text

pub record TextChunk : Type 0 where
  pub text : Text
  pub chunk_index : ℕ
  pub char_offset : ℤ

abbrev pub TextChunks : Type 0
TextChunks = List TextChunk

-- `if len(chunk) >= config.min_chunk_size: chunks.append(...)`
abbrev pub append_chunk : ChunkConfig → Text → ℤ → TextChunks → TextChunks
append_chunk config text offset chunks =
    if leb config.min_chunk_size (length text)
    then chunks ++ (record { text = text; chunk_index = length chunks; char_offset = offset }) ∷ []
    else chunks

-- The place that an index of a slice stands for, in a sequence of `n` elements.
abbrev pub slice_index : ℕ → ℤ → ℕ
slice_index n (pos i) = min i n
slice_index n (negsuc i) = n - suc i

-- `text[start:end]`
abbrev pub slice : Text → ℤ → ℤ → Text
slice text start end =
    let from = slice_index (length text) start in
    take (slice_index (length text) end - from) (drop from text)

-- `start < n`
abbrev pub is_below : ℤ → ℕ → Bool
is_below (pos i) n = ltb i n
is_below (negsuc i) n = true

module _ (config : ChunkConfig) (text : Text) where
  unfoldable pub fixed_loop : ℕ → ℤ → TextChunks → Option TextChunks
  unfolding strip
  fixed_loop zero start chunks = none
  fixed_loop (suc fuel) start chunks =
      let chunk = strip (slice text start (start +ℤ pos config.chunk_size)) in
      let rest =
        fixed_loop fuel (start +ℤ (config.chunk_size ⊖ config.chunk_overlap))
          (append_chunk config chunk start chunks) in
      if is_below start (length text) then rest else some chunks

unfoldable pub chunk_fixed : ℕ → Text → ChunkConfig → Option TextChunks
unfolding fixed_loop
chunk_fixed fuel text config = fixed_loop config text fuel (pos 0) []

-- `reversed`, put in front of a list.
abbrev pub reverse_onto : List Text → List Text → List Text
reverse_onto [] parts = parts
reverse_onto (p ∷ ps) parts = reverse_onto ps (p ∷ parts)

-- The loop over `reversed(current_parts)`; `width` is the length of what joins the parts.
unfoldable pub keep_overlap : ChunkConfig → ℕ → List Text → List Text → ℕ → List Text × ℕ
keep_overlap config width [] parts size = (parts, size)
keep_overlap config width (p ∷ ps) parts size =
    let rest = keep_overlap config width ps (p ∷ parts) (size + (length p + width)) in
    if ltb config.chunk_overlap (size + length p) then (parts, size) else rest

-- The variables of the loops over parts and sentences.
pub record Gathering : Type 0 where
  pub chunks : TextChunks
  pub current_parts : List Text
  pub current_len : ℕ
  pub char_offset : ℤ

abbrev pub nothing_gathered : Gathering
nothing_gathered = record { chunks = []; current_parts = []; current_len = 0; char_offset = pos 0 }

abbrev pub is_nil : List Text → Bool
is_nil [] = true
is_nil (p ∷ ps) = false

-- Once a chunk is appended.
unfoldable pub start_overlap : ChunkConfig → ℕ → TextChunks → Gathering → Gathering
unfolding keep_overlap
start_overlap config width chunks g =
    let kept = keep_overlap config width (reverse_onto g.current_parts []) [] 0 in
    record {
      chunks = chunks;
      current_parts = kept.0;
      current_len = kept.1;
      char_offset = g.char_offset +ℤ (g.current_len ⊖ kept.1);
    }

abbrev pub add_to_current : Text → ℕ → Gathering → Gathering
add_to_current part size g = record g {
  current_parts = g.current_parts ++ part ∷ [];
  current_len = g.current_len + size;
}

module _ (config : ChunkConfig) where
  unfoldable pub split_part : Text → Text → Gathering → Gathering
  unfolding strip join_with start_overlap
  split_part sep part g =
      let part_len = length part + length sep in
      if ltb config.chunk_size (g.current_len + part_len) && not (is_nil g.current_parts)
      then add_to_current part part_len (
          start_overlap config (length sep)
            (append_chunk config (strip (join_with sep g.current_parts)) g.char_offset g.chunks) g)
      else add_to_current part part_len g

  unfoldable pub split_parts : Text → List Text → Gathering → Gathering
  unfolding split_part
  split_parts sep [] g = g
  split_parts sep (part ∷ parts) g = split_parts sep parts (split_part sep part g)

  -- `for sc in sub_chunks`: the index counts the chunks that the loop itself has appended.
  unfoldable pub append_sub_chunks : ℤ → TextChunks → TextChunks → TextChunks
  append_sub_chunks offset chunks [] = chunks
  append_sub_chunks offset chunks (sc ∷ sub_chunks) =
      append_sub_chunks offset
        (chunks
          ++ (record sc {
            chunk_index = length chunks + sc.chunk_index;
            char_offset = sc.char_offset +ℤ offset;
          })
            ∷ [])
        sub_chunks

  abbrev pub with_sub_chunks : Gathering → Option TextChunks → Option TextChunks
  with_sub_chunks g none = none
  with_sub_chunks g (some sub_chunks) = some (append_sub_chunks g.char_offset g.chunks sub_chunks)

  unfoldable pub recursive_split : ℕ → List Text → Text → Option TextChunks
  unfolding chunk_fixed split split_parts join_with strip append_sub_chunks
  recursive_split fuel [] text = chunk_fixed fuel text config
  recursive_split fuel (sep ∷ remaining_seps) text =
      let g = split_parts sep (split sep text) nothing_gathered in
      let remaining = strip (join_with sep g.current_parts) in
      let deeper = with_sub_chunks g (recursive_split fuel remaining_seps remaining) in
      if is_nil g.current_parts
      then some g.chunks
      else if ltb config.chunk_size (length remaining) && not (is_nil remaining_seps)
      then deeper
      else some (append_chunk config remaining g.char_offset g.chunks)

abbrev pub separators : List Text
separators =
    codes "\n\n"
    ∷ codes "\n"
    ∷ codes ". "
    ∷ codes "! "
    ∷ codes "? "
    ∷ codes "; "
    ∷ codes ", "
    ∷ codes " "
    ∷ []

unfoldable pub chunk_recursive : ℕ → Text → ChunkConfig → Option TextChunks
unfolding recursive_split strip
chunk_recursive fuel text config =
    let stripped = strip text in
    if leb (length text) config.chunk_size
    then (if not (is_blank stripped) && leb config.min_chunk_size (length stripped)
        then some ((record { text = stripped; chunk_index = 0; char_offset = pos 0 }) ∷ [])
        else some [])
    else recursive_split config fuel separators text

module _ (config : ChunkConfig) where
  unfoldable pub add_sentence : Text → Gathering → Gathering
  unfolding strip join_with start_overlap
  add_sentence raw g =
      let sentence = strip raw in
      if is_blank sentence
      then g
      else if ltb config.chunk_size (g.current_len + length sentence)
          && not (is_nil g.current_parts)
      then add_to_current sentence (length sentence + 1) (
          start_overlap config 1
            (append_chunk config (join_with (codes " ") g.current_parts) g.char_offset g.chunks) g)
      else add_to_current sentence (length sentence + 1) g

  unfoldable pub add_sentences : List Text → Gathering → Gathering
  unfolding add_sentence
  add_sentences [] g = g
  add_sentences (s ∷ ss) g = add_sentences ss (add_sentence s g)

unfoldable pub chunk_semantic : Text → ChunkConfig → TextChunks
unfolding split_sentences add_sentences join_with
chunk_semantic text config =
    let g = add_sentences config (split_sentences text) nothing_gathered in
    if is_nil g.current_parts
    then g.chunks
    else append_chunk config (join_with (codes " ") g.current_parts) g.char_offset g.chunks

module _ (dec : Discrete Text) where
  unfoldable pub chunk_text : ℕ → Text → ChunkConfig → Option TextChunks
  unfolding chunk_fixed chunk_semantic chunk_recursive
  chunk_text fuel text config =
      if equal dec config.strategy (codes "fixed")
      then chunk_fixed fuel text config
      else if equal dec config.strategy (codes "semantic")
      then some (chunk_semantic text config)
      else chunk_recursive fuel text config

  abbrev pub both_results : Option TextChunks → Option (List TextChunks) → Option (List TextChunks)
  both_results none results = none
  both_results (some chunks) none = none
  both_results (some chunks) (some results) = some (chunks ∷ results)

  -- Of a section only its text is read.
  unfoldable pub chunk_sections : ℕ → List Text → ChunkConfig → Option (List TextChunks)
  unfolding chunk_text strip
  chunk_sections fuel [] config = some []
  chunk_sections fuel (text ∷ sections) config =
      let rest = chunk_sections fuel sections config in
      both_results (if is_blank (strip text) then some [] else chunk_text fuel text config) rest
