-- ===== src/Prelude/Tables.antt =====
-- `HashMap<String, V>` of the standard library: a list of entries, which are looked up by the first
-- with the key.
use text.Mathlib.Text.{◌==◌ as str_eq}
use text.Mathlib.TextEquality.{eq_iff}
use omnisec.Prelude.{String, ◌≡◌, refl, Option, none, some, List, [], ◌∷◌, arith, if◌then◌else◌}

module _ {ℓ} {V : Type ℓ} where
  unfoldable pub lookup : List (String × V) → String → Option V
  lookup [] k = none
  lookup (e ∷ es) k = if str_eq e.0 k then some e.1 else lookup es k

  -- `insert` replaces the value of a key that is there.
  unfoldable pub put : List (String × V) → String → V → List (String × V)
  put [] k v = (k, v) ∷ []
  put (e ∷ es) k v = if str_eq e.0 k then (k, v) ∷ es else e ∷ put es k v

  pub lookup-put :
      (es : List (String × V)) (k j : String) (v : V)
      → lookup (put es k v) j ≡ (if str_eq k j then some v else lookup es j)
  unfolding lookup put
  lookup-put [] k j v = refl
  lookup-put (e ∷ es) k j v =
      ground (arith, lookup-put es k j v, eq_iff e.0 k, eq_iff e.0 j, eq_iff k j)
