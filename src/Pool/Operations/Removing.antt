-- ===== src/Pool/Operations/Removing.antt =====
-- What the removal of an account in src/pool/operations.rs forgets.
use jaynshare.Prelude.{
  String, ◌≡◌, ◌≢◌, refl, sym, ◌∙◌, inl, inr, not, [], ◌∷◌, Option, none, some, Option-cases,
  Bool-cases, ◌==◌, nat_eq, string_eq, option_eq, if◌then◌else◌, ==_refl, ==_ne, head, map_some,
}
use mathlib.Core.Option.{some-injective}
use jaynshare.Time.{Instant}
use jaynshare.External.{External, Uuid}
use jaynshare.HashMap
use jaynshare.HashMap.{HashMap}
use jaynshare.HashMap.Laws.{get-remove}
use jaynshare.Account.{Account, Provider}
use jaynshare.Sessions.{SessionKey, binding}
use jaynshare.Sessions.Bindings.{binding-unbind_account}
use jaynshare.Pool.{Pool, get, default_account, accounts_of}
use jaynshare.Pool.Operating.{set_default, move_default}
use jaynshare.Pool.Operations.{remove, forgotten}

none-some : (handle : Uuid) → ◌≡◌ {A = Option Uuid} none (some handle) → ⊥
none-some handle e = cc

module _ ⦃x : External⦄ where
  -- Nothing of the pool but its accounts and defaults speaks of the handle.
  abbrev pub IsForgotten : Uuid → Pool → Type 0
  IsForgotten handle p =
      (HashMap.get p.usage handle ≡ none)
      × (HashMap.get p.admission handle ≡ none)
      × ((key : SessionKey) → binding p.sessions key ≢ some handle)
      × ((route : String) → HashMap.get p.operator.route_preferences route ≢ some handle)

  no_preference :
      (handle : Uuid) (m : HashMap String Uuid) (route : String)
      → HashMap.get (HashMap.retain (λ r h. not (h == handle)) m) route ≢ some handle
  unfolding HashMap.get HashMap.retain
  no_preference handle [] route e = cc
  no_preference handle ((r, h) ∷ m) route e = elim (Bool-cases (h == handle)) [
    | inl gone ↦ no_preference handle m route (sym (rw gone refl) ∙ e)
    | inr kept ↦ elim (Bool-cases (r == route)) [
      | inl here ↦ ==_ne h handle kept (some-injective h handle (sym (rw (kept, here) refl) ∙ e))
      | inr there ↦ no_preference handle m route (sym (rw (kept, there) refl) ∙ e)
    ]
  ]

  unbound : (o : Option Uuid) (handle : Uuid) → (if o == some handle then none else o) ≢ some handle
  unbound o handle e = elim (Bool-cases (o == some handle)) [
    | inl same ↦ none-some handle (sym (rw same refl) ∙ e)
    | inr apart ↦ ==_ne o (some handle) apart (sym (rw apart refl) ∙ e)
  ]

  forgotten-IsForgotten : (p : Pool) (handle : Uuid) → IsForgotten handle (forgotten p handle)
  unfolding forgotten
  forgotten-IsForgotten p handle = (
    get-remove p.usage handle handle ∙ rw (==_refl handle) refl,
    get-remove p.admission handle handle ∙ rw (==_refl handle) refl,
    λ key e.
        unbound (binding p.sessions key) handle
          (sym (binding-unbind_account p.sessions handle key) ∙ e),
    no_preference handle p.operator.route_preferences,
  )

  move_default-IsForgotten :
      (p : Pool) (handle : Uuid) (provider : Provider) (choice : Option Uuid) (now : Instant)
      → IsForgotten handle p
      → IsForgotten handle (move_default p provider choice now)
  unfolding move_default set_default
  move_default-IsForgotten p handle provider (some h) now i = i
  move_default-IsForgotten p handle provider none now i = i

  nothing_removed :
      (p : Pool) (handle : Uuid) (now : Instant) (a : Account)
      → get p handle ≡ none
      → (remove p handle now).1 ≡ some a
      → ⊥
  unfolding remove
  nothing_removed p handle now a gone e =
      let left : (remove p handle now).1 ≡ none = rw (gone, remove) refl in cc

  -- A removed account leaves no usage, no admission, no bound session and no route preference
  -- behind.
  pub remove-IsForgotten :
      (p : Pool) (handle : Uuid) (now : Instant) (a : Account)
      → (remove p handle now).1 ≡ some a
      → IsForgotten handle (remove p handle now).0
  unfolding remove
  remove-IsForgotten p handle now a e = elim (Option-cases (get p handle)) [
    | inl gone ↦ elim (nothing_removed p handle now a gone e) [ ]
    | inr (found, at) ↦
        let q = forgotten p handle in
        elim (Bool-cases (default_account q found.provider == some handle)) [
          | inl lost ↦
              rw (at, remove)
                (rw lost (
                  move_default-IsForgotten q handle found.provider
                    (map_some (λ (b : Account). b.handle) (head (accounts_of q found.provider))) now
                    (forgotten-IsForgotten p handle)))
          | inr stays ↦ rw (at, remove) (rw stays (forgotten-IsForgotten p handle))
        ]
  ]
