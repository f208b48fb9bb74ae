-- ===== src/Links/Kept.antt =====
-- core/bitmod/proxy/base.py: whether the links that `_learn_from_near_misses` makes are there when it ends.
use bit_mod_ai_inference_cac.Links.NearMiss.{Memᴰ-before, Memᴰ-after}
use bit_mod_ai_inference_cac.Links.Learning.{learn_each, new_link}
use bit_mod_ai_inference_cac.Cache.Backend.{delete_where}
use bit_mod_ai_inference_cac.Strings.{Text}
use mathlib.Core.Path.{subst}
use bit_mod_ai_inference_cac.Prelude.{
  inr, equal_iff, ap, inl, All, suc, ◌≤◌, Bool-cases, ◌*◌, refl, ◌∙◌, equal, arith, sym, length, [],
  ◌+◌, ◌≢◌, ◌<◌, ◌∷◌, ◌≡◌, List, ℕ,
}
use mathlib.Core.List.{Memᴰ}
use bit_mod_ai_inference_cac.Links.{Links, store_similarity_link, SimilarityLink}

module _ (uuids : ℕ → Text) where
  -- A link with these ends and this similarity, whose id is one of the first `n`.
  pub record HasLink (n : ℕ) (links : Links) (source target : Text) (similarity : ℕ) : Type 0 where
    pub link : SimilarityLink
    pub number : ℕ
    pub stored : Memᴰ link links
    pub named : link.id ≡ uuids number
    pub earlier : number < n
    pub begins : link.source_cache_id ≡ source
    pub ends : link.target_cache_id ≡ target
    pub similar : link.similarity ≡ similarity

  pub HasLink-later :
      (m n : ℕ) (links : Links) (source target : Text) (similarity : ℕ)
      → m ≤ n
      → HasLink m links source target similarity
      → HasLink n links source target similarity
  HasLink-later m n links source target similarity le h = record {
    link = h.link;
    number = h.number;
    stored = h.stored;
    named = h.named;
    earlier = let before = h.earlier in omega arith;
    begins = h.begins;
    ends = h.ends;
    similar = h.similar;
  }

  module _ (new_cache_id : Text) where
    -- Both links of a near miss.
    abbrev pub IsLearnt : ℕ → Links → Text × ℕ → Type 0
    IsLearnt n links m = HasLink n links new_cache_id m.0 m.1 × HasLink n links m.0 new_cache_id m.1

    pub IsLearnt-later :
        (m n : ℕ) (near : Text × ℕ) (links : Links)
        → m ≤ n
        → IsLearnt m links near
        → IsLearnt n links near
    IsLearnt-later m n near links le (forward, reverse) = (
      HasLink-later m n links new_cache_id near.0 near.1 le forward,
      HasLink-later m n links near.0 new_cache_id near.1 le reverse,
    )

module _ (dec : Discrete Text) where
  Memᴰ-delete :
      (l : SimilarityLink) (id : Text) (ls : Links)
      → l.id ≢ id
      → Memᴰ l ls
      → Memᴰ l (delete_where (λ (k : SimilarityLink). equal dec k.id id) ls)
  Memᴰ-delete l id [] h m = elim m [ ]
  Memᴰ-delete l id (k ∷ ls) h (Memᴰ.head e) = elim (Bool-cases (equal dec k.id id)) [
    | inl t ↦ absurd (h (ap (λ (q : SimilarityLink). q.id) e ∙ (equal_iff dec k.id id).0 t))
    | inr f ↦ rw f (Memᴰ.head e)
  ]
  Memᴰ-delete l id (k ∷ ls) h (Memᴰ.tail m) = elim (Bool-cases (equal dec k.id id)) [
    | inl t ↦ rw t (Memᴰ-delete l id ls h m)
    | inr f ↦ rw f (Memᴰ.tail (Memᴰ-delete l id ls h m))
  ]

  module _ (uuids : ℕ → Text) (now : ℕ) (new_cache_id new_norm : Text)
      (unique : (i j : ℕ) → uuids i ≡ uuids j → i ≡ j) where
    store-HasLink :
        (n : ℕ) (links : Links) (source target : Text) (similarity : ℕ) (link : SimilarityLink)
        → link.id ≡ uuids n
        → HasLink uuids n links source target similarity
        → HasLink uuids (n + 1) (store_similarity_link dec now link links) source target similarity
    unfolding store_similarity_link
    store-HasLink n links source target similarity link q h = record {
      link = h.link;
      number = h.number;
      stored = Memᴰ-before h.link _ _ (
          Memᴰ-delete h.link link.id links
            (λ e. absurd (
              let same = unique h.number n (sym h.named ∙ e ∙ q) in
              let before = h.earlier in omega arith))
            h.stored);
      named = h.named;
      earlier = let before = h.earlier in omega arith;
      begins = h.begins;
      ends = h.ends;
      similar = h.similar;
    }

    stored-HasLink :
        (n : ℕ) (links : Links) (source target : Text) (similarity : ℕ) (a b : Text)
        → HasLink uuids
            (n + 1)
            (store_similarity_link dec now (new_link (uuids n) source target similarity a b) links)
            source
            target
            similarity
    unfolding store_similarity_link
    stored-HasLink n links source target similarity a b = record {
      link = record (new_link (uuids n) source target similarity a b) { created_at = now };
      number = n;
      stored = Memᴰ-after _ _ _ (Memᴰ.head refl);
      named = refl;
      earlier = omega arith;
      begins = refl;
      ends = refl;
      similar = refl;
    }

    learn_each-keeps :
        (n : ℕ) (ms : List (Text × ℕ)) (links : Links) (source target : Text) (similarity : ℕ)
        → HasLink uuids n links source target similarity
        → HasLink uuids
            (n + 2 * length ms)
            (learn_each dec uuids now new_cache_id new_norm n ms links)
            source
            target
            similarity
    unfolding learn_each
    learn_each-keeps n [] links source target similarity h =
        HasLink-later uuids n (n + 2 * 0) links source target similarity (omega arith) h
    learn_each-keeps n ((t, sim) ∷ ms) links source target similarity h =
        let forward_link = new_link (uuids n) new_cache_id t sim new_norm [] in
        let reverse_link = new_link (uuids (n + 1)) t new_cache_id sim [] new_norm in
        let forward = store_similarity_link dec now forward_link links in
        let both = store_similarity_link dec now reverse_link forward in
        HasLink-later uuids (n + 2 + 2 * length ms) (n + 2 * suc (length ms))
          (learn_each dec uuids now new_cache_id new_norm (n + 2) ms both) source target similarity
          (omega arith)
          (learn_each-keeps (n + 2) ms both source target similarity (
            HasLink-later uuids (n + 1 + 1) (n + 2) both source target similarity (omega arith) (
              store-HasLink (n + 1) forward source target similarity reverse_link refl
                (store-HasLink n links source target similarity forward_link refl h))))

    pub learn_each-IsLearnt :
        (n : ℕ) (ms : List (Text × ℕ)) (links : Links)
        → All
            (IsLearnt uuids new_cache_id
              (n + 2 * length ms)
              (learn_each dec uuids now new_cache_id new_norm n ms links))
            ms
    unfolding learn_each
    learn_each-IsLearnt n [] links = tt
    learn_each-IsLearnt n ((t, sim) ∷ ms) links =
        let forward =
          store_similarity_link dec now (new_link (uuids n) new_cache_id t sim new_norm []) links in
        let both =
          store_similarity_link dec now (new_link (uuids (n + 1)) t new_cache_id sim [] new_norm)
            forward in
        let same : n + 2 + 2 * length ms ≡ n + 2 * suc (length ms) = omega arith in
        subst
          (λ k.
            All
              (IsLearnt uuids new_cache_id k
                (learn_each dec uuids now new_cache_id new_norm (n + 2) ms both))
              ((t, sim) ∷ ms))
          same
          (
            (
              learn_each-keeps (n + 2) ms both new_cache_id t sim (
                  HasLink-later uuids (n + 1 + 1) (n + 2) both new_cache_id t sim (omega arith) (
                    store-HasLink (n + 1) forward new_cache_id t sim
                      (new_link (uuids (n + 1)) t new_cache_id sim [] new_norm) refl
                      (stored-HasLink n links new_cache_id t sim new_norm []))),
              learn_each-keeps (n + 2) ms both t new_cache_id sim (
                  HasLink-later uuids (n + 1 + 1) (n + 2) both t new_cache_id sim (omega arith)
                    (stored-HasLink (n + 1) forward t new_cache_id sim [] new_norm)),
            ),
            learn_each-IsLearnt (n + 2) ms both,
          )
