-- ===== src/Cache/Bulk.antt =====
-- core/bitmod/invalidation.py: `bulk_verify_sources`. `cache_list_valid` is the backend's method, `none` where it
-- has none, as SQLite's. The result is `total_checked` and `invalidated`.
use bit_mod_ai_inference_cac.Prelude.{
  [], none, ◌+◌, length, if◌then◌else◌, some, ◌∷◌, Option, List, ℕ,
}
use bit_mod_ai_inference_cac.Cache.{Row, Db}
use bit_mod_ai_inference_cac.Cache.Engine.{double_verify}
use bit_mod_ai_inference_cac.Cache.Evict.{cache_count}

module _ {ℓ} {K T V : Type ℓ} (dec : Discrete K) (now : ℕ) where
  unfoldable pub verify_entries : List (Row K T) → ℕ → Db K T V → Db K T V × ℕ
  unfolding double_verify
  verify_entries [] invalidated db = (db, invalidated)
  verify_entries (entry ∷ entries) invalidated db =
      let (db', fresh) = double_verify dec now db entry in
      verify_entries entries (if fresh then invalidated else invalidated + 1) db'

  unfoldable pub bulk_verify_sources :
      Option (Db K T V → List (Row K T)) → Db K T V → Db K T V × (ℕ × ℕ)
  unfolding verify_entries cache_count
  bulk_verify_sources none db = (db, (cache_count db, 0))
  bulk_verify_sources (some cache_list_valid) db =
      let entries = cache_list_valid db in
      let (db', invalidated) = verify_entries entries 0 db in (db', (length entries, invalidated))
