-- ===== src/HashMap.antt =====
-- The standard library's `HashMap` as the source uses it: an association list. Lookups see the first
-- entry of a key; iteration order is unspecified in Rust, so statements range over every order.
pub mod Laws
pub mod Distinct
use jaynshare.Prelude.{
  Eq, ◌==◌, ◌≡◌, Bool, true, List, [], ◌∷◌, Option, none, some, if◌then◌else◌, unwrap_or, filter,
  map, not,
}

abbrev pub HashMap {ℓ κ} : Type ℓ → Type κ → Type (ℓ ⊔ κ)
HashMap K V = List (K × V)

module _ {ℓ κ} {K : Type ℓ} {V : Type κ} ⦃e : Eq K⦄ where
  unfoldable pub get : HashMap K V → K → Option V
  get [] k = none
  get ((j, v) ∷ m) k = if j == k then some v else get m k

  unfoldable pub insert : HashMap K V → K → V → HashMap K V
  insert [] k v = (k, v) ∷ []
  insert ((j, w) ∷ m) k v = if j == k then (k, v) ∷ m else (j, w) ∷ insert m k v

  unfoldable pub remove : HashMap K V → K → HashMap K V
  remove m k = filter (λ p. not (p.0 == k)) m

  -- `entry(k).or_insert(d)`, changed by `f`.
  abbrev pub update : HashMap K V → K → V → (V → V) → HashMap K V
  update m k d f = insert m k (f (unwrap_or (get m k) d))

  -- `values_mut()`: a change of every value.
  unfoldable pub map_values : (V → V) → HashMap K V → HashMap K V
  map_values f m = map (λ p. (p.0, f p.1)) m

  -- `retain(p)`
  unfoldable pub retain : (K → V → Bool) → HashMap K V → HashMap K V
  retain p m = filter (λ e. p e.0 e.1) m

  -- `values()`
  abbrev pub values : HashMap K V → List V
  values m = map (λ p. p.1) m

  -- No key stands twice, as in every `HashMap`.
  abbrev pub IsDistinct : HashMap K V → Type κ
  IsDistinct [] = Unit
  IsDistinct ((k, v) ∷ m) = (get m k ≡ none) × IsDistinct m
