-- ===== src/Prelude/Lists.antt =====
-- Lists as the source's iterators use them: length, search, filter, tests.
use Prim.Native.Nat.{ℕ, suc, ◌+◌, ◌≤◌}
use mathlib.Core.Path.{◌≡◌, refl, sym, subst}
use mathlib.Core.Logic.{◌⊎◌, inl, inr}
use mathlib.Core.Bool.{Bool, true, false, ◌||◌, ◌&&◌}
use mathlib.Core.List.{List, [], ◌∷◌, ◌++◌}
use mathlib.Core.Option.{Option, none, some}
use native.Mathlib.Omega.{arith}
use jaynshare.Prelude.Tests.{if◌then◌else◌}

module _ {ℓ} {A : Type ℓ} where
  abbrev pub length : List A → ℕ
  length [] = 0
  length (x ∷ xs) = suc (length xs)

  -- `iter().find(p)`
  abbrev pub find : (A → Bool) → List A → Option A
  find p [] = none
  find p (x ∷ xs) = if p x then some x else find p xs

  -- `iter().filter(p).collect()`
  abbrev pub filter : (A → Bool) → List A → List A
  filter p [] = []
  filter p (x ∷ xs) = if p x then x ∷ filter p xs else filter p xs

  -- `iter().any(p)`
  abbrev pub any : (A → Bool) → List A → Bool
  any p [] = false
  any p (x ∷ xs) = p x || any p xs

  -- `iter().all(p)`
  abbrev pub all : (A → Bool) → List A → Bool
  all p [] = true
  all p (x ∷ xs) = p x && all p xs

  -- `iter_mut().find(p)`, changed by `f`.
  abbrev pub change_first : (A → Bool) → (A → A) → List A → List A
  change_first p f [] = []
  change_first p f (x ∷ xs) = if p x then f x ∷ xs else x ∷ change_first p f xs

  abbrev pub head : List A → Option A
  head [] = none
  head (x ∷ xs) = some x

  abbrev pub is_empty : List A → Bool
  is_empty [] = true
  is_empty (x ∷ xs) = false

  -- Every element has the property.
  abbrev pub All {κ} : (A → Type κ) → List A → Type κ
  All P [] = Unit
  All P (x ∷ xs) = P x × All P xs

module _ {A : Type 0} where
  -- Membership by recursion, which the tactics take apart.
  abbrev pub In : A → List A → Type 0
  In a [] = ⊥
  In a (x ∷ xs) = (a ≡ x) ⊎ In a xs

module _ {ℓ κ} {A : Type ℓ} {B : Type κ} where
  -- `iter().filter_map(f).collect()`
  abbrev pub filter_map : (A → Option B) → List A → List B
  filter_map f [] = []
  filter_map f (x ∷ xs) = elim (f x) [ none ↦ filter_map f xs | some b ↦ b ∷ filter_map f xs ]

  -- `iter().find_map(f)`
  abbrev pub find_map : (A → Option B) → List A → Option B
  find_map f [] = none
  find_map f (x ∷ xs) = elim (f x) [ none ↦ find_map f xs | some b ↦ some b ]

-- Methods of `Option` that the source chains.
module _ {ℓ} {A : Type ℓ} where
  abbrev pub is_some : Option A → Bool
  is_some none = false
  is_some (some a) = true

  abbrev pub is_none : Option A → Bool
  is_none none = true
  is_none (some a) = false

  abbrev pub is_some_and : Option A → (A → Bool) → Bool
  is_some_and none p = false
  is_some_and (some a) p = p a

  abbrev pub unwrap_or : Option A → A → A
  unwrap_or none d = d
  unwrap_or (some a) d = a

  -- `a.or(b)`
  abbrev pub or : Option A → Option A → Option A
  or none b = b
  or (some a) b = some a

  -- `o.filter(p)`
  abbrev pub keep_if : (A → Bool) → Option A → Option A
  keep_if p none = none
  keep_if p (some a) = if p a then some a else none

module _ {ℓ κ} {A : Type ℓ} {B : Type κ} where
  -- `o.map(f)`
  abbrev pub map_some : (A → B) → Option A → Option B
  map_some f none = none
  map_some f (some a) = some (f a)

  -- `o.and_then(f)`
  abbrev pub and_then : Option A → (A → Option B) → Option B
  and_then none f = none
  and_then (some a) f = f a

module _ {ℓ} {A : Type ℓ} where
  pub length-append : (xs ys : List A) → length (xs ++ ys) ≡ length xs + length ys
  length-append [] ys = omega arith
  length-append (x ∷ xs) ys = omega (arith, length-append xs ys)

  pub length-filter-le : (p : A → Bool) (xs : List A) → length (filter p xs) ≤ length xs
  length-filter-le p [] = omega arith
  length-filter-le p (x ∷ xs) = ground (arith, length-filter-le p xs)

module _ {A : Type 0} where
  -- What `find` returns is in the list and passes the test.
  pub find_sound :
      (p : A → Bool) (xs : List A) (a : A) → find p xs ≡ some a → In a xs × (p a ≡ true)
  find_sound p [] a h = ground arith
  find_sound p (x ∷ xs) a h = ground (arith, find_sound p xs a)

  pub find-none : (p : A → Bool) (xs : List A) → find p xs ≡ none → All (λ a. p a ≡ false) xs
  find-none p [] h = tt
  find-none p (x ∷ xs) h = ground (arith, find-none p xs)

  pub In-filter : (p : A → Bool) (xs : List A) (a : A) → In a (filter p xs) → In a xs × (p a ≡ true)
  In-filter p [] a h = elim h [ ]
  In-filter p (x ∷ xs) a h = ground (arith, In-filter p xs a)

  pub filter-In : (p : A → Bool) (xs : List A) (a : A) → In a xs → p a ≡ true → In a (filter p xs)
  filter-In p [] a h e = elim h [ ]
  filter-In p (x ∷ xs) a h e = ground (arith, filter-In p xs a)

  pub All_In {κ} : (P : A → Type κ) (xs : List A) (a : A) → All P xs → In a xs → P a
  All_In P [] a h m = elim m [ ]
  All_In P (x ∷ xs) a h (inl e) = subst P (sym e) h.0
  All_In P (x ∷ xs) a h (inr m) = All_In P xs a h.1 m

  -- `any` has a witness in the list.
  pub any_sound : (p : A → Bool) (xs : List A) → any p xs ≡ true → (a : A) × In a xs × (p a ≡ true)
  any_sound p [] h = ground arith
  any_sound p (x ∷ xs) h =
      elim (p x) as (λ b. (p x ≡ b) → (a : A) × In a (x ∷ xs) × (p a ≡ true)) [
        | true ↦ λ e. (x, inl refl, e)
        | false ↦ λ e. let (a, m, t) = any_sound p xs (ground arith) in (a, inr m, t)
      ]
        refl

module _ {ℓ} {A : Type ℓ} where
  pub keep_if-some :
      (p : A → Bool) (o : Option A) {a : A} → keep_if p o ≡ some a → (o ≡ some a) × (p a ≡ true)
  keep_if-some p none h = cc
  keep_if-some p (some b) {a} h = ground arith
