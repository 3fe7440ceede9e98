-- ===== src/HashMap/Distinct.antt =====
-- Every operation keeps the keys distinct.
use jaynshare.HashMap.{HashMap, get, insert, remove, map_values, retain, IsDistinct}
use jaynshare.HashMap.Laws.{get-insert, get-map_values, get-filter-none}
use jaynshare.Prelude.{
  Eq, ◌==◌, ◌≡◌, Bool, false, not, [], ◌∷◌, none, arith, filter, Bool-cases, inl, inr, subst,
  eq_of_==, ◌∙◌, refl,
}

module _ {ℓ} {K : Type ℓ} ⦃e : Eq K⦄ where
  ==_false_sym : (i k : K) → (i == k) ≡ false → (k == i) ≡ false
  ==_false_sym i k h = ground (arith, e.same_iff i k, e.same_iff k i)

module _ {ℓ κ} {K : Type ℓ} {V : Type κ} ⦃e : Eq K⦄ where
  pub insert-IsDistinct :
      (m : HashMap K V) (k : K) (v : V) → IsDistinct m → IsDistinct (insert m k v)
  unfolding insert get
  insert-IsDistinct [] k v d = (ground arith, tt)
  insert-IsDistinct ((i, w) ∷ m) k v d = elim (Bool-cases (i == k)) [
    | inl h ↦ rw h (subst (λ j. get m j ≡ none) (eq_of_== i k h) d.0, d.1)
    | inr h ↦ rw h (get-insert m k i v ∙ rw (==_false_sym i k h) d.0, insert-IsDistinct m k v d.1)
  ]

  filter-IsDistinct : (p : K × V → Bool) (m : HashMap K V) → IsDistinct m → IsDistinct (filter p m)
  filter-IsDistinct p [] d = d
  filter-IsDistinct p ((i, w) ∷ m) d =
      ground (arith, filter-IsDistinct p m d.1, get-filter-none p m i d.0)

  pub retain-IsDistinct :
      (p : K → V → Bool) (m : HashMap K V) → IsDistinct m → IsDistinct (retain p m)
  unfolding retain
  retain-IsDistinct p m d = filter-IsDistinct (λ e. p e.0 e.1) m d

  pub remove-IsDistinct : (m : HashMap K V) (k : K) → IsDistinct m → IsDistinct (remove m k)
  unfolding remove
  remove-IsDistinct m k d = filter-IsDistinct (λ p. not (p.0 == k)) m d

  pub map_values-IsDistinct :
      (f : V → V) (m : HashMap K V) → IsDistinct m → IsDistinct (map_values f m)
  unfolding map_values
  map_values-IsDistinct f [] d = d
  map_values-IsDistinct f ((i, w) ∷ m) d =
      (get-map_values f m i ∙ rw d.0 refl, map_values-IsDistinct f m d.1)
