-- ===== src/Tests/NamespaceTests.antt =====
-- Namespaces of two tenants (core/bitmod/namespaces.py).
use bit_mod_ai_inference_cac.Tests.KeyTests.{text_discrete}
use bit_mod_ai_inference_cac.Prelude.{
  ℕ_discrete, refl, ◌≢◌, none, some, true, ◌≡◌, [], false, List, ◌∷◌,
}
use bit_mod_ai_inference_cac.Strings.{Text, codes}
use bit_mod_ai_inference_cac.Namespaces.{namespace_get, delete}
use bit_mod_ai_inference_cac.Namespaces.{Namespace, Namespaces, strict, shared}
use bit_mod_ai_inference_cac.Namespaces.Lifecycle.{Op, run, make, remove, owner_only}

abbrev home : Namespace
home = record {
  id = codes "n1";
  name = codes "home";
  owner_key_id = codes "k";
  isolation = strict;
  public_fallback = false;
  created_at = 5;
}

abbrev table : Namespaces
table = home ∷ []

abbrev calls : List Op
calls =
    make (codes "n2") 6 (codes " lab ") (codes "kk") shared true (some (codes "kk"))
    ∷ remove (codes "n1") (codes "kk")
    ∷ []

owner_only_example :
    let after = delete text_discrete (codes "n1") (codes "k") (run text_discrete calls table) in
    (namespace_get text_discrete (codes "n1") (run text_discrete calls table) ≡ some home)
    × (after.1 ≡ true)
    × (namespace_get text_discrete (codes "n1") after.0 ≡ none)
    × ((other : Text)
        → other ≢ codes "n1"
        → namespace_get text_discrete other after.0
          ≡ namespace_get text_discrete other (run text_discrete calls table))
unfolding namespace_get text_discrete ℕ_discrete
owner_only_example = owner_only text_discrete (codes "n1") home calls table refl ((λ h. cc), tt)

abbrev lab : Namespace
lab = record {
  id = codes "n2";
  name = codes "lab";
  owner_key_id = codes "kk";
  isolation = shared;
  public_fallback = true;
  created_at = 6;
}
