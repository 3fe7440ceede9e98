-- ===== src/Config/References/Guarding.antt =====
-- An account operation under `guarded` of src/control/accounts.rs and `mutate_pool` of src/server.rs.
use jaynshare.Prelude.{
  ◌≡◌, ◌⊎◌, refl, sym, ◌∙◌, ap, subst, inl, inr, Bool, true, false, ◌&&◌, List, [], ◌∷◌, Result, ok,
  err, Result-cases, Bool-cases, All, any, is_empty, ◌==◌, string_eq,
}
use jaynshare.External.{External}
use jaynshare.Selection.Bars.{SelectionSettings}
use jaynshare.Pool.{Pool}
use jaynshare.Pool.Naming.{ReferenceConflict, OperationError, reference_conflict}
use jaynshare.Config.{Printing}
use jaynshare.Config.References.{introduced, conflicts, guarded}
use jaynshare.Refresh.{MutateError, refused, persist, mutate_pool}

-- A conflict of the list is at the same entry, over the same reference.
abbrev pub KnownIn : List ReferenceConflict → ReferenceConflict → Type 0
KnownIn before c =
    any (λ (b : ReferenceConflict). b.entry == c.entry && b.reference == c.reference) before ≡ true

not_empty : false ≡ true → ⊥
not_empty e = cc

nothing_introduced :
    (before after : List ReferenceConflict)
    → is_empty (introduced before after) ≡ true
    → All (KnownIn before) after
unfolding introduced
nothing_introduced before [] e = tt
nothing_introduced before (c ∷ after) e =
    elim (Bool-cases
      (any (λ (b : ReferenceConflict). b.entry == c.entry && b.reference == c.reference) before)) [
        | inl known ↦ (known, nothing_introduced before after (sym (rw known refl) ∙ e))
        | inr fresh ↦ elim (not_empty (sym (rw fresh refl) ∙ e)) [ ]
      ]

module _ ⦃x : External⦄ ⦃print : Printing⦄ {A : Type 0} where
  -- The operation succeeds, and every conflict of the pool that it leaves was one before.
  abbrev pub Keeps :
      SelectionSettings
      → (Pool → Pool × Result {0, 0} A OperationError)
      → Pool
      → Pool × Result {0, 0} A (MutateError OperationError)
      → Type 0
  Keeps selection apply live answer =
      ((value : A) × (answer ≡ ((apply live).0, ok value)))
      × All (KnownIn (conflicts selection live)) (conflicts selection answer.0)

  guarded-cases :
      (selection : SelectionSettings) (apply : Pool → Pool × Result {0, 0} A OperationError)
      (p : Pool)
      → ((cause : OperationError) × ((guarded selection apply p).1 ≡ err cause))
        ⊎ ((value : A) × (guarded selection apply p ≡ ((apply p).0, ok value))
            × All (KnownIn (conflicts selection p)) (conflicts selection (apply p).0))
  unfolding guarded
  guarded-cases selection apply p = elim (Result-cases (apply p).1) [
    | inr (cause, e) ↦ inl (cause, rw (e, guarded) e)
    | inl (value, e) ↦
        let broken = introduced (conflicts selection p) (conflicts selection (apply p).0) in
        elim (Bool-cases (is_empty broken)) [
          | inl fine ↦ inr (
            value,
            rw (e, guarded) (rw fine (ap (λ r. ((apply p).0, r)) e)),
            nothing_introduced _ _ fine,
          )
          | inr bad ↦ inl (reference_conflict broken, rw (e, guarded) (rw bad refl))
        ]
  ]

  written_guarded :
      (selection : SelectionSettings) (apply : Pool → Pool × Result {0, 0} A OperationError)
      (live : Pool) (value : A)
      → guarded selection apply live ≡ ((apply live).0, ok value)
      → ◌≡◌ {A = Pool × Result {0, 0} A (MutateError OperationError)}
          (mutate_pool live true (guarded selection apply))
          ((apply live).0, ok value)
  unfolding mutate_pool
  written_guarded selection apply live value e =
      rw (ap (λ r. r.1) e, mutate_pool)
        (ap (λ (r : Pool × Result {0, 0} A OperationError). (r.0, ok value)) e)

  -- A guarded operation is refused, or its write fails, and the live pool is as before; or it takes
  -- effect, and every reference of the configuration that is broken afterwards was broken before.
  pub mutate_pool-guarded :
      (selection : SelectionSettings) (apply : Pool → Pool × Result {0, 0} A OperationError)
      (live : Pool) (written : Bool)
      → ((cause : MutateError OperationError) × (mutate_pool live written (guarded selection apply)
            ≡ (live, err cause)))
        ⊎ Keeps selection apply live (mutate_pool live written (guarded selection apply))
  unfolding mutate_pool
  mutate_pool-guarded selection apply live true = elim (guarded-cases selection apply live) [
    | inl (cause, e) ↦ inl (refused cause, rw (e, mutate_pool) refl)
    | inr (value, e, known) ↦
        let answer = written_guarded selection apply live value e in
        inr (
          (value, answer),
          subst (λ r. All (KnownIn (conflicts selection live)) (conflicts selection r.0))
              (sym answer) known,
        )
  ]
  mutate_pool-guarded selection apply live false = elim (guarded-cases selection apply live) [
    | inl (cause, e) ↦ inl (refused cause, rw (e, mutate_pool) refl)
    | inr (value, e, known) ↦ inl (persist, rw (ap (λ r. r.1) e, mutate_pool) refl)
  ]
