-- ===== src/Prelude/Orders.antt =====
-- Orders as instances, and the first least element of a list, as `min_by_key` and `min` find it.
use Prim.Native.Nat.{ℕ}
use mathlib.Core.Path.{◌≡◌, refl, sym, subst}
use mathlib.Core.Logic.{◌⊎◌, inl, inr}
use mathlib.Core.Bool.{Bool, true, false}
use mathlib.Core.List.{List, [], ◌∷◌}
use mathlib.Core.Option.{Option, none, some, some-injective}
use native.Mathlib.Omega.{arith}
use jaynshare.Prelude.Tests.{if◌then◌else◌, leb, Bool-cases}
use jaynshare.Prelude.Lists.{In}

-- A total order, ties allowed.
pub record Order (A : Type 0) : Type 0 where
  pub le : A → A → Bool
  pub total : (a b : A) → le a b ≡ false → le b a ≡ true
  pub trans : (a b c : A) → le a b ≡ true → le b c ≡ true → le a c ≡ true

-- Signed integers: `negsuc n` is -(n + 1).
pub data ℤ : Type 0 where
  pos : ℕ → ℤ
  negsuc : ℕ → ℤ

abbrev pub leb_ℤ : ℤ → ℤ → Bool
leb_ℤ (pos a) (pos b) = leb a b
leb_ℤ (pos a) (negsuc b) = false
leb_ℤ (negsuc a) (pos b) = true
leb_ℤ (negsuc a) (negsuc b) = leb b a

abbrev pub leb_bool : Bool → Bool → Bool
leb_bool true false = false
leb_bool _ _ = true

-- `None` is below every value.
abbrev pub leb_option : Option ℕ → Option ℕ → Bool
leb_option none b = true
leb_option (some a) none = false
leb_option (some a) (some b) = leb a b

pub leb_total : (a b : ℕ) → leb a b ≡ false → leb b a ≡ true
leb_total a b h = ground arith

pub leb_trans : (a b c : ℕ) → leb a b ≡ true → leb b c ≡ true → leb a c ≡ true
leb_trans a b c h k = ground arith

pub leb_ℤ_total : (a b : ℤ) → leb_ℤ a b ≡ false → leb_ℤ b a ≡ true
leb_ℤ_total a b h = ground arith

pub leb_ℤ_trans : (a b c : ℤ) → leb_ℤ a b ≡ true → leb_ℤ b c ≡ true → leb_ℤ a c ≡ true
leb_ℤ_trans a b c h k = ground arith

pub leb_bool_total : (a b : Bool) → leb_bool a b ≡ false → leb_bool b a ≡ true
leb_bool_total a b h = ground arith

pub leb_bool_trans :
    (a b c : Bool) → leb_bool a b ≡ true → leb_bool b c ≡ true → leb_bool a c ≡ true
leb_bool_trans a b c h k = ground arith

pub leb_option_total : (a b : Option ℕ) → leb_option a b ≡ false → leb_option b a ≡ true
leb_option_total a b h = ground arith

pub leb_option_trans :
    (a b c : Option ℕ) → leb_option a b ≡ true → leb_option b c ≡ true → leb_option a c ≡ true
leb_option_trans a b c h k = ground arith

instance abbrev pub nat_order : Order ℕ
nat_order = record { le = leb; total = leb_total; trans = leb_trans }

instance abbrev pub int_order : Order ℤ
int_order = record { le = leb_ℤ; total = leb_ℤ_total; trans = leb_ℤ_trans }

instance abbrev pub bool_order : Order Bool
bool_order = record { le = leb_bool; total = leb_bool_total; trans = leb_bool_trans }

instance abbrev pub option_order : Order (Option ℕ)
option_order = record { le = leb_option; total = leb_option_total; trans = leb_option_trans }

module _ {A B : Type 0} ⦃o : Order A⦄ ⦃p : Order B⦄ where
  -- Lexicographic, as tuples compare.
  abbrev pub leb_pair : A × B → A × B → Bool
  leb_pair (a, b) (c, d) = if o.le a c then (if o.le c a then p.le b d else true) else false

  pub leb_pair_total : (s t : A × B) → leb_pair s t ≡ false → leb_pair t s ≡ true
  leb_pair_total (a, b) (c, d) h = ground (arith, o.total a c, p.total b d)

  pub leb_pair_trans :
      (s t u : A × B) → leb_pair s t ≡ true → leb_pair t u ≡ true → leb_pair s u ≡ true
  leb_pair_trans (a, b) (c, d) (e, f) h k =
      ground (arith, o.trans a c e, o.trans c e a, o.trans e a c, o.trans e c a, p.trans b d f)

  instance abbrev pub pair_order : Order (A × B)
  pair_order = record { le = leb_pair; total = leb_pair_total; trans = leb_pair_trans }

module _ {A K : Type 0} ⦃o : Order K⦄ where
  -- The least of `best` and a list, the first of several that are equally least.
  unfoldable pub least_from : (A → K) → A → List A → A
  least_from key best [] = best
  least_from key best (x ∷ xs) = least_from key (if o.le (key best) (key x) then best else x) xs

  -- `min_by_key`
  unfoldable pub min_by_key : (A → K) → List A → Option A
  unfolding least_from
  min_by_key key [] = none
  min_by_key key (x ∷ xs) = some (least_from key x xs)

module _ {K : Type 0} (o : Order K) where
  order_refl : (k : K) → o.le k k ≡ true
  order_refl k = elim (Bool-cases (o.le k k)) [ inl e ↦ e | inr e ↦ o.total k k e ]

  -- `r` is `best` or in the list, and no key is below its own.
  abbrev IsLeast : {A : Type 0} → (A → K) → A → List A → A → Type 0
  IsLeast {A} key best xs r =
      ((r ≡ best) ⊎ In r xs)
      × (o.le (key r) (key best) ≡ true)
      × ((b : A) → In b xs → o.le (key r) (key b) ≡ true)

  IsLeast-step :
      {A : Type 0} (key : A → K) (best x c r : A) (xs : List A)
      → (c ≡ best) ⊎ (c ≡ x)
      → o.le (key c) (key best) ≡ true
      → o.le (key c) (key x) ≡ true
      → IsLeast key c xs r
      → IsLeast key best (x ∷ xs) r
  IsLeast-step key best x c r xs is_one under_best under_x (found, under, rest) = (
    ground arith,
    o.trans (key r) (key c) (key best) under under_best,
    λ b m. elim m [
      | inl e ↦
          subst (λ y. o.le (key r) (key y) ≡ true) (sym e)
            (o.trans (key r) (key c) (key x) under under_x)
      | inr later ↦ rest b later
    ],
  )

module _ {A K : Type 0} ⦃o : Order K⦄ where
  least_from_sound :
      (key : A → K) (best : A) (xs : List A) → IsLeast o key best xs (least_from key best xs)
  unfolding least_from
  least_from_sound key best [] = (inl refl, order_refl o (key best), λ b m. elim m [ ])
  least_from_sound key best (x ∷ xs) =
      let kept = o.le (key best) (key x) in
      IsLeast-step o key best x (if kept then best else x) _ xs
        (elim (Bool-cases kept) [ inl e ↦ rw e (inl refl) | inr e ↦ rw e (inr refl) ])
        (elim (Bool-cases kept) [
          | inl e ↦ rw e (order_refl o (key best))
          | inr e ↦ rw e (o.total (key best) (key x) e)
        ])
        (elim (Bool-cases kept) [ inl e ↦ rw e e | inr e ↦ rw e (order_refl o (key x)) ])
        (least_from_sound key (if kept then best else x) xs)

  IsLeast-In :
      (key : A → K) (x : A) (xs : List A) (r : A)
      → IsLeast o key x xs r
      → In r (x ∷ xs) × ((b : A) → In b (x ∷ xs) → o.le (key r) (key b) ≡ true)
  IsLeast-In key x xs r (found, under, rest) = (
    found,
    λ b m. elim m [
      | inl e ↦ subst (λ y. o.le (key r) (key y) ≡ true) (sym e) under
      | inr later ↦ rest b later
    ],
  )

  -- `min_by_key` fails on the empty list only; what it returns is in the list, and no key is less.
  pub min_by_key_sound :
      (key : A → K) (xs : List A) (a : A)
      → min_by_key key xs ≡ some a
      → In a xs × ((b : A) → In b xs → o.le (key a) (key b) ≡ true)
  unfolding min_by_key
  min_by_key_sound key [] a h = cc
  min_by_key_sound key (x ∷ xs) a h =
      subst (λ c. In c (x ∷ xs) × ((b : A) → In b (x ∷ xs) → o.le (key c) (key b) ≡ true))
        (some-injective (least_from key x xs) a h)
        (IsLeast-In key x xs (least_from key x xs) (least_from_sound key x xs))

  pub min_by_key-some :
      (key : A → K) (x : A) (xs : List A) → min_by_key key (x ∷ xs) ≡ some (least_from key x xs)
  unfolding min_by_key
  min_by_key-some key x xs = refl
