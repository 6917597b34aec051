-- ===== src/Text/Maps.antt =====
-- `Map<string, V>` and records keyed by strings, in the order of insertion.
use interbellum.Common.{
  Bool, true, false, List, [], ◌∷◌, ◌≡◌, refl, arith, Option, none, some, if◌then◌else◌,
}
use interbellum.Text.{Text, ◌==◌}
use interbellum.Text.Equality.{==_iff}

abbrev is_some {ℓ} : {A : Type ℓ} → Option A → Bool
is_some none = false
is_some (some a) = true

module _ {ℓ} {V : Type ℓ} where
  -- `Map.get`.
  unfoldable pub get : List (Text × V) → Text → Option V
  get [] k = none
  get ((j, v) ∷ m) k = if j == k then some v else get m k

  -- `Map.set`: a key that is there keeps its place.
  unfoldable pub put : List (Text × V) → Text → V → List (Text × V)
  put [] k v = (k, v) ∷ []
  put ((j, w) ∷ m) k v = if j == k then (j, v) ∷ m else (j, w) ∷ put m k v

  pub get-put :
      (m : List (Text × V)) (k j : Text) (v : V)
      → get (put m k v) j ≡ (if k == j then some v else get m j)
  unfolding get put
  get-put [] k j v = refl
  get-put ((i, w) ∷ m) k j v = ground (arith, ==_iff i k, ==_iff i j, ==_iff k j, get-put m k j v)

  -- `Map.has`.
  unfoldable pub has_key : List (Text × V) → Text → Bool
  unfolding get
  has_key m k = is_some (get m k)
