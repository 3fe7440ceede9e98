-- ===== src/HashMap/Laws.antt =====
-- What a lookup returns after each operation.
use jaynshare.HashMap.{HashMap, get, insert, remove, map_values, retain, IsDistinct}
use jaynshare.Prelude.{
  Eq, ◌==◌, ◌≡◌, refl, Bool, [], ◌∷◌, none, some, if◌then◌else◌, keep_if, map_some, arith, filter,
  Bool, ==_refl,
}

module _ {ℓ κ} {K : Type ℓ} {V : Type κ} ⦃e : Eq K⦄ where
  pub get-insert :
      (m : HashMap K V) (k j : K) (v : V)
      → get (insert m k v) j ≡ (if k == j then some v else get m j)
  unfolding get insert
  get-insert [] k j v = refl
  get-insert ((i, w) ∷ m) k j v =
      ground (arith, e.same_iff k j, e.same_iff i k, e.same_iff i j, get-insert m k j v)

  pub get-insert_self : (m : HashMap K V) (k : K) (v : V) → get (insert m k v) k ≡ some v
  get-insert_self m k v = rw (get-insert m k k v, ==_refl k)

  pub get-remove :
      (m : HashMap K V) (k j : K) → get (remove m k) j ≡ (if k == j then none else get m j)
  unfolding get remove
  get-remove [] k j = ground arith
  get-remove ((i, w) ∷ m) k j =
      ground (arith, e.same_iff k j, e.same_iff i k, e.same_iff i j, get-remove m k j)

  pub get-map_values :
      (f : V → V) (m : HashMap K V) (k : K) → get (map_values f m) k ≡ map_some f (get m k)
  unfolding get map_values
  get-map_values f [] k = refl
  get-map_values f ((i, w) ∷ m) k = ground (arith, get-map_values f m k)

  pub get-filter-none :
      (p : K × V → Bool) (m : HashMap K V) (k : K) → get m k ≡ none → get (filter p m) k ≡ none
  unfolding get
  get-filter-none p [] k h = refl
  get-filter-none p ((i, w) ∷ m) k h = ground (arith, get-filter-none p m k)

  pub get-retain :
      (p : K → V → Bool) (m : HashMap K V) (k : K)
      → IsDistinct m
      → get (retain p m) k ≡ keep_if (p k) (get m k)
  unfolding get retain
  get-retain p [] k d = refl
  get-retain p ((i, w) ∷ m) k d =
      ground (arith, e.same_iff i k, get-retain p m k d.1, get-filter-none (λ e. p e.0 e.1) m k)
