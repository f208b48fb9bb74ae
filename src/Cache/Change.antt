-- ===== src/Cache/Change.antt =====
-- core/bitmod/invalidation.py: `detect_section_change` and `process_change_event`. SHA-256 and the
-- `LIKE` prefilter are parameters. The time and the section's id in the summary are left out.
use bit_mod_ai_inference_cac.Cache.Serve.{matches}
use mathlib.Core.Option.{some-injective}
use bit_mod_ai_inference_cac.Cache.Sections.{invalidate_by_section_lem, IsComplete}
use bit_mod_ai_inference_cac.Cache.Engine.{hash_matches}
use bit_mod_ai_inference_cac.Cache.{Row, Source, Db}
use bit_mod_ai_inference_cac.Cache.Backend.{
  count_where, cites, get_section_version_hash, cache_invalidate_by_section,
}
use bit_mod_ai_inference_cac.Prelude.{
  ◌↔◌, inr, inl, Bool-cases, ◌+◌, true, none, All, equal, ◌⊎◌, not, arith, refl, some, ◌≢◌,
  if◌then◌else◌, false, ◌≡◌, Bool, ℕ, List, Option,
}
use bit_mod_ai_inference_cac.Cache.Table.{Distinct}

-- The summary that `process_change_event` returns.
pub data Summary {ℓ} (K : Type ℓ) : Type ℓ where
  unchanged : Summary K
  changed : Option K → K → ℕ → Summary K

mismatch {ℓ} :
    {K : Type ℓ} (dec : Discrete K) (o : Option K) {h : K}
    → hash_matches dec o h ≡ false
    → o ≢ some h
mismatch dec none m = λ e. cc
mismatch dec (some c) m = λ e. absurd (ground (arith, some-injective c _ e))

kept_hash {ℓ} :
    {K T V : Type ℓ} (dec : Discrete K) (like : K → List (Source K) → Bool) (now : ℕ)
    (db : Db K T V) (section_id : K)
    → get_section_version_hash dec
        (cache_invalidate_by_section dec like now db section_id).0
        section_id
      ≡ get_section_version_hash dec db section_id
unfolding cache_invalidate_by_section get_section_version_hash
kept_hash dec like now db section_id = refl

-- `current_hash is not None and current_hash != new_hash`
abbrev pub differs_from {ℓ} : {K : Type ℓ} → Discrete K → Option K → K → Bool
differs_from dec none new_hash = false
differs_from dec (some current_hash) new_hash = not (equal dec current_hash new_hash)

detect_same {ℓ} :
    {K : Type ℓ} (dec : Discrete K) (o : Option K) {new : K}
    → hash_matches dec o new ≡ true
    → (differs_from dec o new ≡ true) ↔ ((h : K) × (k : ℕ) × (unchanged ≡ changed (some h) new k))
detect_same dec none e = cc
detect_same dec (some c) e = (λ d. cc, λ (h, k, d). cc)

detect_other {ℓ} :
    {K : Type ℓ} (dec : Discrete K) (o : Option K) {new : K}
    → hash_matches dec o new ≡ false
    → (n : ℕ)
    → (differs_from dec o new ≡ true)
      ↔ ((h : K) × (k : ℕ) × (changed o new n ≡ changed (some h) new k))
detect_other dec none e n = (λ d. cc, λ (h, k, d). cc)
detect_other dec (some c) e n = (λ d. (c, n, refl), λ (h, k, d). rw e refl)

module _ {ℓ} {K T V : Type ℓ} (dec : Discrete K) (sha256 : T → K) where
  unfoldable pub detect_section_change : Db K T V → K → T → Bool
  detect_section_change db section_id new_content =
      differs_from dec (get_section_version_hash dec db section_id) (sha256 new_content)

  module _ (like : K → List (Source K) → Bool) (now : ℕ) where
    unfoldable pub process_change_event : Db K T V → K → T → Db K T V × Summary K
    process_change_event db section_id new_content =
        let old_hash = get_section_version_hash dec db section_id in
        let new_hash = sha256 new_content in
        if hash_matches dec old_hash new_hash
        then (db, unchanged)
        else (let (db', invalidated_count) =
              cache_invalidate_by_section dec like now db section_id in
            (db', changed old_hash new_hash invalidated_count))

    -- On a table with unique ids and keys, with a prefilter that passes every row that cites the
    -- section: `process_change_event` changes nothing if the current section has the hash of the new
    -- content; otherwise it reports the change with both hashes, no valid answer cites the section,
    -- and as many valid answers as it reports are gone. The section is not updated in either case:
    -- its hash stays, so the same event is seen as a change again.
    pub process_change_event_lem :
        (db : Db K T V) (section_id : K) (new_content : T)
        → IsComplete dec like
        → Distinct db.rows
        → let after = process_change_event db section_id new_content in
          let old_hash = get_section_version_hash dec db section_id in
          (get_section_version_hash dec after.0 section_id ≡ old_hash)
          × (((old_hash ≡ some (sha256 new_content)) × (after ≡ (db, unchanged)))
              ⊎ ((old_hash ≢ some (sha256 new_content))
                  × (n : ℕ) × (after.1 ≡ changed old_hash (sha256 new_content) n)
                  × All
                      (λ (r : Row K T).
                        r.is_valid ≡ true → cites dec section_id r.source_sections ≡ false)
                      after.0.rows
                  × (count_where (λ (r : Row K T). r.is_valid) after.0.rows + n
                      ≡ count_where (λ (r : Row K T). r.is_valid) db.rows)))
    unfolding process_change_event
    process_change_event_lem db section_id new_content complete d =
        elim (Bool-cases
          (hash_matches dec (get_section_version_hash dec db section_id) (sha256 new_content))) [
            | inl e ↦
                rw e (refl, inl (matches dec (get_section_version_hash dec db section_id) e, refl))
            | inr e ↦
                let (clear, count, _, _) =
                  invalidate_by_section_lem dec like now complete db section_id d in
                rw e (
                  kept_hash dec like now db section_id,
                  inr (
                    mismatch dec (get_section_version_hash dec db section_id) e,
                    _,
                    refl,
                    clear,
                    count,
                  ),
                )
          ]

    -- `detect_section_change` is true exactly if `process_change_event` reports a change of a section
    -- that has a current row; the event of a section without one is a change as well, which
    -- `detect_section_change` denies.
    pub detect_section_change_iff :
        (db : Db K T V) (section_id : K) (new_content : T)
        → (detect_section_change db section_id new_content ≡ true) ↔ (
            (h : K) × (k : ℕ) × ((process_change_event db section_id new_content).1
              ≡ changed (some h) (sha256 new_content) k))
    unfolding detect_section_change process_change_event
    detect_section_change_iff db section_id new_content =
        elim (Bool-cases
          (hash_matches dec (get_section_version_hash dec db section_id) (sha256 new_content))) [
            | inl e ↦ rw e (detect_same dec (get_section_version_hash dec db section_id) e)
            | inr e ↦ rw e (detect_other dec (get_section_version_hash dec db section_id) e _)
          ]
