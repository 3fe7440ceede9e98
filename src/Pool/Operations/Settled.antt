-- ===== src/Pool/Operations/Settled.antt =====
-- The defaults under every sequence of the operator's account operations of src/pool/operations.rs.
use jaynshare.Prelude.{
  String, ◌≡◌, ◌≢◌, ◌⊎◌, refl, sym, ◌∙◌, ap, subst, inl, inr, Bool, true, false, List, [], ◌∷◌,
  ◌++◌, Option, none, some, Result, Option-cases, Bool-cases, All, In, find, find_sound, head,
  filter, map_some, ◌==◌, nat_eq, if◌then◌else◌, eq_of_==, ==_ne, option_eq,
}
use mathlib.Core.Option.{some-injective}
use jaynshare.Time.{Instant}
use jaynshare.External.{External, Uuid}
use jaynshare.HashMap
use jaynshare.HashMap.Laws.{get-remove}
use jaynshare.Account.{Account, Provider, provider_eq, Profile, Source, Credential}
use jaynshare.Pool.{Pool, get, accounts_of, default_account, from_accounts}
use jaynshare.Pool.Operating.{
  set_default, move_default, switch_default, set_default-default_account,
}
use jaynshare.Pool.Naming.{OperationError, same_identity_of}
use jaynshare.Pool.Operations.{
  push_account, add, add_existing, relogin, replace_credential, rename, set_enabled, remove,
  remove_account, forgotten,
}
use jaynshare.Pool.Operations.Endings.{
  shape, shapes, Edits, add_existing-Edits, add_new-cases, replace_credential-Edits, rename-Edits,
  set_enabled-Edits, relogin-Edits,
}

module _ ⦃x : External⦄ where
  In-shapes-append :
      (l : List Account) (a : Account) (s : Uuid × Provider)
      → In s (shapes l)
      → In s (shapes (l ++ (a ∷ [])))
  In-shapes-append [] a s m = elim m [ ]
  In-shapes-append (b ∷ l) a s (inl e) = inl e
  In-shapes-append (b ∷ l) a s (inr m) = inr (In-shapes-append l a s m)

  last-shapes : (l : List Account) (a : Account) → In (shape a) (shapes (l ++ (a ∷ [])))
  last-shapes [] a = inl refl
  last-shapes (b ∷ l) a = inr (last-shapes l a)

  -- The default is one of the provider's accounts, and is missing only where there are none.
  abbrev pub SettledAt : Option Uuid → Provider → List (Uuid × Provider) → Type 0
  SettledAt none provider l = All (λ s. s.1 ≢ provider) l
  SettledAt (some handle) provider l = In (handle, provider) l

  abbrev pub Settled : Pool → Type 0
  Settled p =
      (provider : Provider) → SettledAt (default_account p provider) provider (shapes p.accounts)

  -- An operation that keeps the shapes and the defaults.
  kept :
      (p q : Pool)
      → shapes q.accounts ≡ shapes p.accounts
      → q.operator.defaults ≡ p.operator.defaults
      → Settled p
      → Settled q
  unfolding default_account
  kept p q same defaults i provider =
      subst (λ l. SettledAt (default_account q provider) provider l) (sym same)
        (subst
          (λ d.
            SettledAt (map_some (λ e. e.handle) (HashMap.get d provider)) provider
              (shapes p.accounts))
          (sym defaults) (i provider))

  pub default_account-move_default :
      (p : Pool) (provider other : Provider) (choice : Option Uuid) (now : Instant)
      → default_account (move_default p provider choice now) other
        ≡ (if provider == other then choice else default_account p other)
  unfolding move_default default_account
  default_account-move_default p provider other (some handle) now =
      (set_default-default_account p provider other handle false now).0
  default_account-move_default p provider other none now =
      rw (get-remove p.operator.defaults provider other)
        (elim (Bool-cases (provider == other)) [ inl e ↦ rw e refl | inr e ↦ rw e refl ])

  pub move_default-accounts :
      (p : Pool) (provider : Provider) (choice : Option Uuid) (now : Instant)
      → (move_default p provider choice now).accounts ≡ p.accounts
  unfolding move_default set_default
  move_default-accounts p provider (some handle) now = refl
  move_default-accounts p provider none now = refl

  -- A new default of one provider, where the accounts stay.
  redirected :
      (p q : Pool) (provider : Provider) (choice : Option Uuid)
      → q.accounts ≡ p.accounts
      → ((other : Provider)
          → default_account q other
            ≡ (if provider == other then choice else default_account p other))
      → SettledAt choice provider (shapes p.accounts)
      → ((other : Provider)
          → (provider == other) ≡ false
          → SettledAt (default_account p other) other (shapes p.accounts))
      → Settled q
  redirected p q provider choice same now_default fits rest other =
      subst (λ l. SettledAt (default_account q other) other (shapes l)) (sym same)
        (subst (λ c. SettledAt c other (shapes p.accounts)) (sym (now_default other))
          (elim (Bool-cases (provider == other)) [
            | inl hit ↦ rw hit (
                subst (λ r. SettledAt choice r (shapes p.accounts)) (eq_of_== provider other hit)
                  fits)
            | inr apart ↦ rw apart (rest other apart)
          ]))

  pub moved :
      (p : Pool) (provider : Provider) (choice : Option Uuid) (now : Instant)
      → SettledAt choice provider (shapes p.accounts)
      → ((other : Provider)
          → (provider == other) ≡ false
          → SettledAt (default_account p other) other (shapes p.accounts))
      → Settled (move_default p provider choice now)
  moved p provider choice now fits rest =
      redirected p (move_default p provider choice now) provider choice
        (move_default-accounts p provider choice now)
        (λ other. default_account-move_default p provider other choice now) fits rest

  pub found_shape :
      (handle : Uuid) (l : List Account) (a : Account)
      → find (λ (b : Account). b.handle == handle) l ≡ some a
      → In (handle, a.provider) (shapes l)
  found_shape handle [] a at = cc
  found_shape handle (b ∷ l) a at = elim (Bool-cases (b.handle == handle)) [
    | inl hit ↦
        let this = some-injective b a (sym (rw hit refl) ∙ at) in
        inl (
          subst (λ c. (handle, c.provider) ≡ shape b) this
            (ap (λ h. (h, b.provider)) (sym (eq_of_== b.handle handle hit))))
    | inr miss ↦ inr (found_shape handle l a (sym (rw miss refl) ∙ at))
  ]

  set_default-accounts :
      (p : Pool) (provider : Provider) (handle : Uuid) (chosen : Bool) (now : Instant)
      → (set_default p provider handle chosen now).0.accounts ≡ p.accounts
  unfolding set_default
  set_default-accounts p provider handle chosen now = refl

  switched :
      (p : Pool) (handle : Uuid) (now : Instant)
      → Settled p
      → Settled (switch_default p handle now).0
  unfolding switch_default get
  switched p handle now i = elim (Option-cases (get p handle)) [
    | inl gone ↦ rw (gone, switch_default) i
    | inr (a, at) ↦
        rw (at, switch_default)
          (redirected p (set_default p a.provider handle true now).0 a.provider (some handle)
            (set_default-accounts p a.provider handle true now)
            (λ other. (set_default-default_account p a.provider other handle true now).0)
            (found_shape handle p.accounts a at) (λ other apart. i other))
  ]

  edited :
      {A : Type 0} (p : Pool) (answer : Pool × Result {0, 0} A OperationError)
      → Edits p answer
      → Settled p
      → Settled answer.0
  edited p answer (inl (cause, e)) i = subst (λ r. Settled r.0) (sym e) i
  edited p answer (inr (accounts, value, same, e)) i =
      subst (λ r. Settled r.0) (sym e) (kept p (record p { accounts = accounts }) same refl i)

  grown :
      (choice : Option Uuid) (provider : Provider) (l : List Account) (a : Account)
      → a.provider ≢ provider
      → SettledAt choice provider (shapes l)
      → SettledAt choice provider (shapes (l ++ (a ∷ [])))
  grown none provider [] a apart i = (apart, tt)
  grown none provider (b ∷ l) a apart i = (i.0, grown none provider l a apart i.1)
  grown (some handle) provider l a apart i = In-shapes-append l a (handle, provider) i

  pushed : (p : Pool) (a : Account) (now : Instant) → Settled p → Settled (push_account p a now)
  unfolding push_account default_account
  pushed p a now i = elim (Option-cases (default_account p a.provider)) [
    | inl free ↦
        let q : Pool = record p { accounts = p.accounts ++ (a ∷ []) } in
        rw free (
          moved q a.provider (some a.handle) now (last-shapes p.accounts a) (λ other apart.
            grown (default_account p other) other p.accounts a (==_ne a.provider other apart)
              (i other)))
    | inr (handle, set) ↦ rw set λ other. elim (Bool-cases (a.provider == other)) [
      | inr apart ↦
          grown (default_account p other) other p.accounts a (==_ne a.provider other apart)
            (i other)
      | inl same ↦
          let at : default_account p other ≡ some handle =
            subst (λ q. default_account p q ≡ some handle) (eq_of_== a.provider other same) set in
          subst (λ c. SettledAt c other (shapes (p.accounts ++ (a ∷ [])))) (sym at)
            (In-shapes-append p.accounts a (handle, other)
              (subst (λ c. SettledAt c other (shapes p.accounts)) at (i other)))
    ]
  ]

  In-removed :
      (handle : Uuid) (l : List Account) (a : Account) (s : Uuid × Provider)
      → find (λ (b : Account). b.handle == handle) l ≡ some a
      → In s (shapes l)
      → (s ≡ shape a) ⊎ In s (shapes (remove_account handle l))
  unfolding remove_account
  In-removed handle [] a s at m = elim m [ ]
  In-removed handle (b ∷ l) a s at m = elim (Bool-cases (b.handle == handle)) [
    | inl hit ↦
        let this = some-injective b a (sym (rw hit refl) ∙ at) in
        rw hit (elim m [ inl e ↦ inl (e ∙ ap shape this) | inr k ↦ inr k ])
    | inr miss ↦ rw miss (elim m [
      | inl e ↦ inr (inl e)
      | inr k ↦ elim (In-removed handle l a s (sym (rw miss refl) ∙ at) k) [
        | inl e ↦ inl e
        | inr j ↦ inr (inr j)
      ]
    ])
  ]

  All-removed :
      (P : Uuid × Provider → Type 0) (handle : Uuid) (l : List Account)
      → All P (shapes l)
      → All P (shapes (remove_account handle l))
  unfolding remove_account
  All-removed P handle [] all = tt
  All-removed P handle (b ∷ l) all = elim (Bool-cases (b.handle == handle)) [
    | inl hit ↦ rw hit all.1
    | inr miss ↦ rw miss (all.0, All-removed P handle l all.1)
  ]

  -- A default that is not the removed account stays one of the accounts.
  outlives :
      (choice : Option Uuid) (provider : Provider) (handle : Uuid) (l : List Account) (a : Account)
      → find (λ (b : Account). b.handle == handle) l ≡ some a
      → ¬ ((choice ≡ some a.handle) × (provider ≡ a.provider))
      → SettledAt choice provider (shapes l)
      → SettledAt choice provider (shapes (remove_account handle l))
  outlives none provider handle l a at other i = All-removed _ handle l i
  outlives (some h) provider handle l a at other i =
      elim (In-removed handle l a (h, provider) at i) [
        | inl e ↦ elim (other (ap (λ s. some s.0) e, ap (λ s. s.1) e)) [ ]
        | inr m ↦ m
      ]

  lifted :
      (choice : Option Uuid) (provider : Provider) (l : List Account) (a : Account)
      → a.provider ≢ provider
      → SettledAt choice provider (shapes l)
      → SettledAt choice provider (shapes (a ∷ l))
  lifted none provider l a apart i = (apart, i)
  lifted (some h) provider l a apart i = inr i

  pub first_fits :
      (provider : Provider) (l : List Account)
      → SettledAt
          (map_some
            (λ (a : Account). a.handle)
            (head (filter (λ (a : Account). a.provider == provider) l)))
          provider
          (shapes l)
  first_fits provider [] = tt
  first_fits provider (a ∷ l) = elim (Bool-cases (a.provider == provider)) [
    | inl hit ↦ rw hit (inl (ap (λ q. (a.handle, q)) (sym (eq_of_== a.provider provider hit))))
    | inr miss ↦
        rw miss (lifted _ provider l a (==_ne a.provider provider miss) (first_fits provider l))
  ]

  removed : (p : Pool) (handle : Uuid) (now : Instant) → Settled p → Settled (remove p handle now).0
  unfolding remove forgotten get accounts_of default_account
  removed p handle now i = elim (Option-cases (get p handle)) [
    | inl gone ↦ rw (gone, remove) i
    | inr (a, at) ↦
        let q = forgotten p handle in
        let this =
          eq_of_== a.handle handle
            (find_sound (λ (b : Account). b.handle == handle) p.accounts a at).1 in
        elim (Bool-cases (default_account q a.provider == some handle)) [
          | inl lost ↦
              rw (at, remove)
                (rw lost (
                  moved q a.provider _ now (first_fits a.provider q.accounts) (λ other apart.
                    outlives (default_account p other) other handle p.accounts a at
                      (λ same. ==_ne a.provider other apart (sym same.1)) (i other))))
          | inr stays ↦
              rw (at, remove)
                (rw stays (λ other.
                  outlives (default_account p other) other handle p.accounts a at
                    (λ same. ==_ne (default_account p a.provider) (some handle) stays (
                      subst (λ r. default_account p r ≡ some handle) same.1
                        (same.0 ∙ ap some this)))
                    (i other)))
        ]
  ]

  added :
      (p : Pool) (account : Account) (operator_name : Option String) (now : Instant)
      → Settled p
      → Settled (add p account operator_name now).0
  unfolding add
  added p account operator_name now i = elim (Option-cases (same_identity_of p account)) [
    | inr (existing, known) ↦
        rw (known, add)
          (edited p (add_existing p account existing operator_name)
            (add_existing-Edits p account existing operator_name) i)
    | inl fresh ↦
        rw (fresh, add)
          (elim (add_new-cases p account operator_name now) [
            | inl (cause, e) ↦ subst (λ r. Settled r.0) (sym e) i
            | inr (accounts, name, same, chosen, e) ↦
                subst (λ r. Settled r.0) (sym e)
                  (pushed (record p { accounts = accounts })
                    (record account { display_name = name }) now
                    (kept p (record p { accounts = accounts }) same refl i))
          ])
  ]

  -- Every operation of the operator on the accounts and their defaults.
  pub data Step : Pool → Pool → Type 0 where
    adds :
        (p : Pool) (account : Account) (operator_name : Option String) (now : Instant)
        → Step p (add p account operator_name now).0
    relogins :
        (p : Pool) (account : Account) (operator_name : Option String) (now : Instant)
        → Step p (relogin p account operator_name now).0
    replaces :
        (p : Pool) (handle : Uuid) (credential : Credential) (profile : Option Profile)
        (source : Source)
        → Step p (replace_credential p handle credential profile source).0
    renames : (p : Pool) (handle : Uuid) (name : String) → Step p (rename p handle name).0
    enables : (p : Pool) (handle : Uuid) (enabled : Bool) → Step p (set_enabled p handle enabled).0
    removes : (p : Pool) (handle : Uuid) (now : Instant) → Step p (remove p handle now).0
    switches : (p : Pool) (handle : Uuid) (now : Instant) → Step p (switch_default p handle now).0

  pub data Reach : Pool → Type 0 where
    begin : (now : Instant) → Reach (from_accounts [] now)
    next : {p q : Pool} → Reach p → Step p q → Reach q

  Step-Settled : {p q : Pool} → Step p q → Settled p → Settled q
  Step-Settled (adds p account operator_name now) i = added p account operator_name now i
  Step-Settled (relogins p account operator_name now) i =
      edited p _ (relogin-Edits p account operator_name now) i
  Step-Settled (replaces p handle credential profile source) i =
      edited p _ (replace_credential-Edits p handle credential profile source) i
  Step-Settled (renames p handle name) i = edited p _ (rename-Edits p handle name) i
  Step-Settled (enables p handle enabled) i = edited p _ (set_enabled-Edits p handle enabled) i
  Step-Settled (removes p handle now) i = removed p handle now i
  Step-Settled (switches p handle now) i = switched p handle now i

  empty-Settled : (now : Instant) → Settled (from_accounts [] now)
  unfolding from_accounts default_account HashMap.get
  empty-Settled now provider = tt

  -- Whatever accounts are added, replaced, renamed, disabled, removed and chosen, from an empty
  -- pool on: a provider's default is one of its accounts, and a provider that has accounts has a
  -- default.
  pub Reach-Settled : (p : Pool) → Reach p → Settled p
  Reach-Settled p (begin now) = empty-Settled now
  Reach-Settled p (next before step) = Step-Settled step (Reach-Settled _ before)
