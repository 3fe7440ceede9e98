-- ===== src/Registry/Entries.antt =====
-- Lookups and changes of the entries that src/registry.rs keeps.
use jaynshare.Prelude.{
  String, ◌≡◌, refl, sym, ◌∙◌, ap, Bool, List, [], ◌∷◌, none, some, find, change_first, map,
  map_some, if◌then◌else◌, ◌==◌, string_eq, arith, All, ==_refl, Bool-cases, inl, inr, ◌≢◌, ◌++◌,
  In, All_In, ==_ne, eq_of_==, subst,
}
use mathlib.Core.Option.{some-injective}
use jaynshare.Registry.{Registry, RegistryEntry, entry, change_entry}

find-change_first :
    (id other : String) (f : RegistryEntry → RegistryEntry) (l : List RegistryEntry)
    → ((e : RegistryEntry) → (f e).id ≡ e.id)
    → find
        (λ (e : RegistryEntry). e.id == other)
        (change_first (λ (e : RegistryEntry). e.id == id) f l)
      ≡ (if id == other
          then map_some f (find (λ (e : RegistryEntry). e.id == other) l)
          else find (λ (e : RegistryEntry). e.id == other) l)
find-change_first id other f [] keeps = ground arith
find-change_first id other f (e ∷ l) keeps = ground (
  arith,
  keeps e,
  string_eq.same_iff e.id id,
  string_eq.same_iff e.id other,
  string_eq.same_iff id other,
  string_eq.same_iff (f e).id other,
  find-change_first id other f l keeps,
)

pub entry-change_entry :
    (r : Registry) (id : String) (f : RegistryEntry → RegistryEntry)
    → ((e : RegistryEntry) → (f e).id ≡ e.id)
    → entry (change_entry id f r) id ≡ map_some f (entry r id)
unfolding entry change_entry
entry-change_entry r id f keeps = find-change_first id id f r.clients keeps ∙ rw (==_refl id) refl

-- A property of all entries survives where the entry that is found has it after its change.
pub All-change_first :
    (P : RegistryEntry → Type 0) (p : RegistryEntry → Bool) (f : RegistryEntry → RegistryEntry)
    (l : List RegistryEntry) (e : RegistryEntry)
    → find p l ≡ some e
    → P (f e)
    → All P l
    → All P (change_first p f l)
All-change_first P p f [] e at good all = tt
All-change_first P p f (a ∷ l) e at good all = elim (Bool-cases (p a)) [
  | inl hit ↦
      rw hit (subst (λ b. P (f b)) (sym (some-injective a e (sym (rw hit refl) ∙ at))) good, all.1)
  | inr miss ↦ rw miss (all.0, All-change_first P p f l e (sym (rw miss refl) ∙ at) good all.1)
]

pub change_first-none :
    (p : RegistryEntry → Bool) (f : RegistryEntry → RegistryEntry) (l : List RegistryEntry)
    → find p l ≡ none
    → change_first p f l ≡ l
change_first-none p f [] gone = refl
change_first-none p f (a ∷ l) gone = ground (arith, change_first-none p f l)

-- The ids of the entries, in order.
abbrev pub ids : List RegistryEntry → List String
ids l = map (λ (e : RegistryEntry). e.id) l

pub ids-change_first :
    (p : RegistryEntry → Bool) (f : RegistryEntry → RegistryEntry) (l : List RegistryEntry)
    → ((e : RegistryEntry) → (f e).id ≡ e.id)
    → ids (change_first p f l) ≡ ids l
ids-change_first p f [] keeps = refl
ids-change_first p f (e ∷ l) keeps = elim (Bool-cases (p e)) [
  | inl hit ↦ rw hit (ap (λ k. k ∷ ids l) (keeps e))
  | inr miss ↦ rw miss (ap (λ k. e.id ∷ k) (ids-change_first p f l keeps))
]

All-append :
    (i : String) (l : List RegistryEntry) (e : RegistryEntry)
    → e.id ≢ i
    → All (λ j. j ≢ i) (ids l)
    → All (λ j. j ≢ i) (ids (l ++ (e ∷ [])))
All-append i [] e apart all = (apart, tt)
All-append i (a ∷ l) e apart all = (all.0, All-append i l e apart all.1)

In-ids : (l : List RegistryEntry) (e : RegistryEntry) → In e l → In e.id (ids l)
In-ids [] e m = elim m [ ]
In-ids (a ∷ l) e (inl same) = inl (ap (λ (b : RegistryEntry). b.id) same)
In-ids (a ∷ l) e (inr m) = inr (In-ids l e m)

-- No id stands twice.
abbrev pub Unique : List String → Type 0
Unique [] = Unit
Unique (i ∷ is) = All (λ j. j ≢ i) is × Unique is

pub Unique-append :
    (l : List RegistryEntry) (e : RegistryEntry)
    → find (λ (a : RegistryEntry). a.id == e.id) l ≡ none
    → Unique (ids l)
    → Unique (ids (l ++ (e ∷ [])))
Unique-append [] e free u = (tt, tt)
Unique-append (a ∷ l) e free u = elim (Bool-cases (a.id == e.id)) [
  | inl same ↦ cc
  | inr apart ↦ (
    All-append a.id l e (λ same. ==_ne a.id e.id apart (sym same)) u.0,
    Unique-append l e (sym (rw apart refl) ∙ free) u.1,
  )
]

-- The entry of an id that stands once is the one that is found.
pub In-Unique :
    (l : List RegistryEntry) (e : RegistryEntry)
    → Unique (ids l)
    → In e l
    → find (λ (a : RegistryEntry). a.id == e.id) l ≡ some e
In-Unique [] e u m = elim m [ ]
In-Unique (a ∷ l) e u (inl same) = rw same (rw (==_refl a.id) refl)
In-Unique (a ∷ l) e u (inr m) = elim (Bool-cases (a.id == e.id)) [
  | inl same ↦
      elim (All_In (λ j. j ≢ a.id) (ids l) e.id u.0 (In-ids l e m)
        (sym (eq_of_== a.id e.id same))) [ ]
  | inr apart ↦ rw apart (In-Unique l e u.1 m)
]
