-- ===== src/Pool/Operations/Names.antt =====
-- The names that src/pool/operations.rs gives on the operator's word.
use jaynshare.Prelude.{
  String, ◌≡◌, ◌≢◌, ◌⊎◌, refl, inl, inr, false, not, ◌&&◌, List, [], ◌∷◌, Option, none, some, ok,
  Bool-cases, arith, All, any, ◌==◌, nat_eq, string_eq, option_eq, is_none,
}
use jaynshare.External.{External, Uuid}
use jaynshare.Account.{Account}
use jaynshare.Pool.{Pool, get}
use jaynshare.Pool.Bookkeeping.{change_account}
use jaynshare.Pool.Holding.{find-change_account}
use jaynshare.Pool.Naming.{name_taken}
use jaynshare.Pool.Operations.{rename}

module _ ⦃x : External⦄ where
  open x use {fold}

  -- The account is another one's, or goes by another name, case aside.
  abbrev pub GoesBy : Uuid → String → Account → Type 0
  GoesBy handle name b = (b.handle ≡ handle) ⊎ (fold b.display_name ≢ fold name)

  free_name :
      (handle : Uuid) (name : String) (l : List Account)
      → any
          (λ (a : Account). not (some a.handle == some handle) && fold a.display_name == fold name)
          l
        ≡ false
      → All (GoesBy handle name) l
  free_name handle name [] free = tt
  free_name handle name (a ∷ l) free = (
    elim (Bool-cases (a.handle == handle)) [
      | inl same ↦ inl ((nat_eq.same_iff a.handle handle).0 same)
      | inr apart ↦ inr (λ e. ground (arith, string_eq.same_iff (fold a.display_name) (fold name)))
    ],
    free_name handle name l (ground arith),
  )

  rename-ok :
      (p : Pool) (handle : Uuid) (name : String)
      → (rename p handle name).1 ≡ ok tt
      → (is_none (get p handle) ≡ false)
        × (name_taken p name (some handle) ≡ false)
        × ((rename p handle name).0 ≡ record p {
          accounts =
              change_account handle (λ (a : Account). record a { display_name = name }) p.accounts;
        })
  unfolding rename
  rename-ok p handle name e = ground arith

  found : (o : Option Account) → is_none o ≡ false → (a : Account) × (o ≡ some a)
  found none e = cc
  found (some a) e = (a, refl)

  All-changed :
      (handle : Uuid) (name : String) (l : List Account)
      → All (GoesBy handle name) l
      → All
          (GoesBy handle name)
          (change_account handle (λ (a : Account). record a { display_name = name }) l)
  unfolding change_account
  All-changed handle name [] all = tt
  All-changed handle name (a ∷ l) all = elim (Bool-cases (a.handle == handle)) [
    | inl hit ↦ rw hit (inl ((nat_eq.same_iff a.handle handle).0 hit), all.1)
    | inr miss ↦ rw miss (all.0, All-changed handle name l all.1)
  ]

  -- A renaming that succeeds gives the account exactly that name and changes nothing else of it,
  -- and no account with another handle goes by the name, case aside.
  pub rename-GoesBy :
      (p : Pool) (handle : Uuid) (name : String)
      → (rename p handle name).1 ≡ ok tt
      → (a : Account) × (get p handle ≡ some a)
        × (get (rename p handle name).0 handle ≡ some (record a { display_name = name }))
        × All (GoesBy handle name) (rename p handle name).0.accounts
  unfolding get name_taken
  rename-GoesBy p handle name e =
      let (held, free, now) = rename-ok p handle name e in
      let (a, at) = found (get p handle) held in
      (
        a,
        at,
        rw now (
            find-change_account handle (λ b. record b { display_name = name }) p.accounts a
              (λ b. refl) at),
        rw now (All-changed handle name p.accounts (free_name handle name p.accounts free)),
      )
