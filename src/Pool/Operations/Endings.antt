-- ===== src/Pool/Operations/Endings.antt =====
-- The two ways that an operation of src/pool/operations.rs can end: refused, with the pool as it was, or
-- done, with the same accounts under the same handles but for those it adds.
use jaynshare.Prelude.{
  String, ◌≡◌, ◌⊎◌, refl, sym, ap, inl, inr, Bool, not, ◌&&◌, List, [], ◌∷◌, Option, none, some,
  Result, ok, err, Option-cases, Bool-cases, arith, map, ◌==◌, nat_eq, string_eq, option_eq,
  is_none, is_some, is_some_and, keep_if, length, subst, if◌then◌else◌,
}
use jaynshare.Time.{Instant}
use jaynshare.External.{External, Uuid}
use jaynshare.Account.{Account, Provider, Profile, Source, Credential, credential_kind, kind}
use jaynshare.Pool.{Pool, get}
use jaynshare.Pool.Bookkeeping.{change_account}
use jaynshare.Pool.Naming.{
  OperationError, not_found, name_empty, name_conflict, name_mismatch, kind_mismatch,
  identity_mismatch, not_owner, new_account, Holder, relabel, relabelled, label, holds, holders,
  sole_name, label_conflict, email_of, holder_of, derive_name, name_taken, same_identity,
  same_identity_of, labelled,
}
use jaynshare.Pool.Operations.{
  install, choose_name, push_account, add_new, add_existing, add, relogin, replace_credential,
  rename, set_enabled, same_kind,
}

module _ ⦃x : External⦄ where
  open x use {fold}

  -- What a default can point at.
  abbrev pub shape : Account → Uuid × Provider
  shape a = (a.handle, a.provider)

  abbrev pub shapes : List Account → List (Uuid × Provider)
  shapes l = map shape l

  pub shapes-change_account :
      (handle : Uuid) (f : Account → Account) (l : List Account)
      → ((a : Account) → shape (f a) ≡ shape a)
      → shapes (change_account handle f l) ≡ shapes l
  unfolding change_account
  shapes-change_account handle f [] keeps = refl
  shapes-change_account handle f (a ∷ l) keeps = elim (Bool-cases (a.handle == handle)) [
    | inl hit ↦ rw hit (ap (λ s. s ∷ shapes l) (keeps a))
    | inr miss ↦ rw miss (ap (λ r. shape a ∷ r) (shapes-change_account handle f l keeps))
  ]

  relabelled-shape :
      (email new_label : String) (a : Account) → shape (relabelled email new_label a) ≡ shape a
  relabelled-shape email new_label a = ground arith

  pub shapes-relabel :
      (all : List Holder) (newcomer : Account) (l : List Account)
      → shapes (relabel all newcomer l) ≡ shapes l
  unfolding relabel
  shapes-relabel all newcomer [] = refl
  shapes-relabel all newcomer (a ∷ l) =
      elim (Bool-cases (holds (email_of newcomer) newcomer.provider a)) [
        | inl hit ↦ rw (hit, relabelled-shape, shapes-relabel all newcomer l) refl
        | inr miss ↦ rw (miss, shapes-relabel all newcomer l) refl
      ]

  pub install-shape :
      (a : Account) (credential : Credential) (source : Source)
      → shape (install a credential source) ≡ shape a
  unfolding install
  install-shape a credential source = refl

  -- The operation is refused and changes nothing, or it is done and keeps every account's handle and
  -- provider, and all but the accounts.
  abbrev pub Edits : {A : Type 0} → Pool → Pool × Result {0, 0} A OperationError → Type 0
  Edits {A} p answer =
      ((cause : OperationError) × (answer ≡ (p, err cause)))
      ⊎ ((accounts : List Account) × (value : A) × (shapes accounts ≡ shapes p.accounts)
          × (answer ≡ (record p { accounts = accounts }, ok value)))

  changed :
      {A : Type 0} {value : A} {answer : Pool × Result {0, 0} A OperationError} (p : Pool)
      (handle : Uuid) (f : Account → Account)
      → ((a : Account) → shape (f a) ≡ shape a)
      → answer ≡ (record p { accounts = change_account handle f p.accounts }, ok value)
      → Edits p answer
  changed {value} p handle f keeps e = inr (
    change_account handle f p.accounts,
    value,
    shapes-change_account handle f p.accounts keeps,
    e,
  )

  pub set_enabled-Edits :
      (p : Pool) (handle : Uuid) (enabled : Bool) → Edits p (set_enabled p handle enabled)
  unfolding set_enabled
  set_enabled-Edits p handle enabled = elim (Option-cases (get p handle)) [
    | inl gone ↦ inl (not_found, rw (gone, set_enabled) refl)
    | inr (a, at) ↦
        changed {value = tt} p handle
          (λ b. record b { enabled = enabled; errored = if enabled then none else b.errored })
          (λ b. refl) (rw (at, set_enabled) refl)
  ]

  pub rename-Edits : (p : Pool) (handle : Uuid) (name : String) → Edits p (rename p handle name)
  unfolding rename
  rename-Edits p handle name = elim (Bool-cases (name == "")) [
    | inl empty ↦ inl (name_empty, rw empty refl)
    | inr full ↦ elim (Bool-cases (is_none (get p handle))) [
      | inl gone ↦ inl (not_found, rw (full, gone) refl)
      | inr held ↦ elim (Bool-cases (name_taken p name (some handle))) [
        | inl taken ↦ inl (name_conflict name, rw (full, held, taken) refl)
        | inr free ↦
            changed {value = tt} p handle (λ b. record b { display_name = name }) (λ b. refl)
              (rw (full, held, free) refl)
      ]
    ]
  ]

  pub add_existing-Edits :
      (p : Pool) (account existing : Account) (operator_name : Option String)
      → Edits p (add_existing p account existing operator_name)
  unfolding add_existing
  add_existing-Edits p account existing operator_name =
      elim (Bool-cases (is_some account.owner && not (account.owner == existing.owner))) [
        | inl other ↦ inl (not_owner, rw other refl)
        | inr own ↦
            elim (Bool-cases
              (is_some_and operator_name (λ name. not (fold name == fold existing.display_name)))) [
                | inl differs ↦ inl (name_mismatch existing.display_name, rw (own, differs) refl)
                | inr fits ↦
                    changed {value = existing.handle} p existing.handle
                      (λ b.
                        install (record b { profile = account.profile }) account.credential
                          account.source)
                      (λ b.
                        install-shape (record b { profile = account.profile }) account.credential
                          account.source)
                      (rw (own, fits) refl)
              ]
      ]

  pub replace_credential-Edits :
      (p : Pool) (handle : Uuid) (credential : Credential) (profile : Option Profile)
      (source : Source)
      → Edits p (replace_credential p handle credential profile source)
  unfolding replace_credential
  replace_credential-Edits p handle credential profile source = elim (Option-cases (get p handle)) [
    | inl gone ↦ inl (not_found, rw (gone, replace_credential) refl)
    | inr (a, at) ↦ elim (Bool-cases (same_kind (credential_kind credential) (kind a))) [
      | inr other ↦ inl (
        kind_mismatch (kind a) (credential_kind credential),
        rw (at, replace_credential) (rw other refl),
      )
      | inl same ↦ elim (Option-cases (keep_if (λ (f : Profile). is_some f.account_uuid) profile)) [
        | inl silent ↦
            changed {value = tt} p handle (λ b. install b credential source)
              (λ b. install-shape b credential source)
              (rw (at, replace_credential) (rw (same, silent) refl))
        | inr (fresh, named) ↦ elim (Bool-cases (same_identity a.profile fresh)) [
          | inr differs ↦
              inl (
                identity_mismatch,
                rw (at, replace_credential) (rw (same, named) (rw differs refl)),
              )
          | inl fits ↦
              changed {value = tt} p handle
                (λ b. install (record b { profile = fresh }) credential source)
                (λ b. install-shape (record b { profile = fresh }) credential source)
                (rw (at, replace_credential) (rw (same, named) (rw fits refl)))
        ]
      ]
    ]
  ]

  pub derive_name-Edits : (p : Pool) (newcomer : Account) → Edits p (derive_name p newcomer)
  unfolding derive_name
  derive_name-Edits p newcomer =
      elim (Bool-cases (
        length (holders p.accounts newcomer) == 1
        && not (name_taken p (sole_name p.accounts newcomer) none))) [
          | inl alone ↦ inr (p.accounts, sole_name p.accounts newcomer, refl, rw alone refl)
          | inr shared ↦ elim (Option-cases (label_conflict p.accounts newcomer)) [
            | inr (name, taken) ↦ inl (name_conflict name, rw (shared) (rw taken refl))
            | inl free ↦ inr (
              relabel (holders p.accounts newcomer) newcomer p.accounts,
              labelled (email_of newcomer)
                  (label (holders p.accounts newcomer) newcomer (holder_of newcomer)),
              shapes-relabel (holders p.accounts newcomer) newcomer p.accounts,
              rw shared (rw free refl),
            )
          ]
        ]

  pub choose_name-Edits :
      (p : Pool) (account : Account) (operator_name : Option String)
      → Edits p (choose_name p account operator_name)
  unfolding choose_name
  choose_name-Edits p account none = derive_name-Edits p account
  choose_name-Edits p account (some name) = elim (Bool-cases (name_taken p name none)) [
    | inl taken ↦ inl (name_conflict name, rw taken refl)
    | inr free ↦ inr (p.accounts, name, refl, rw free refl)
  ]

  -- A fresh account is refused and changes nothing, or it is pushed under its chosen name.
  pub add_new-cases :
      (p : Pool) (account : Account) (operator_name : Option String) (now : Instant)
      → ((cause : OperationError) × (add_new p account operator_name now ≡ (p, err cause)))
        ⊎ ((accounts : List Account) × (name : String) × (shapes accounts ≡ shapes p.accounts)
            × (choose_name p account operator_name ≡ (record p { accounts = accounts }, ok name))
            × (add_new p account operator_name now ≡ (
              push_account
                  (record p { accounts = accounts })
                  (record account { display_name = name })
                  now,
              ok account.handle,
            )))
  unfolding add_new
  add_new-cases p account operator_name now = elim (choose_name-Edits p account operator_name) [
    | inl (cause, e) ↦ inl (cause, rw (ap (λ r. r.1) e, add_new) (rw (ap (λ r. r.0) e) refl))
    | inr (accounts, name, same, e) ↦
        inr (accounts, name, same, e, rw (ap (λ r. r.1) e, add_new) (rw (ap (λ r. r.0) e) refl))
  ]

  -- A re-login is refused and changes nothing, or it changes nothing but accounts, and the accounts
  -- stay the same ones: none is added, removed, or moved to another handle or provider.
  pub relogin-Edits :
      (p : Pool) (account : Account) (operator_name : Option String) (now : Instant)
      → Edits p (relogin p account operator_name now)
  unfolding relogin add
  relogin-Edits p account operator_name now = elim (Option-cases (same_identity_of p account)) [
    | inl fresh ↦ inl (new_account, rw (fresh, relogin) refl)
    | inr (existing, known) ↦
        subst (Edits p) (sym (rw (known, relogin) (rw (known, add) refl)))
          (add_existing-Edits p account existing operator_name)
  ]

  -- The operation is refused and the pool is as before, or it succeeds.
  abbrev pub Ends : {A : Type 0} → Pool → Pool × Result {0, 0} A OperationError → Type 0
  Ends {A} p answer =
      ((cause : OperationError) × (answer ≡ (p, err cause))) ⊎ ((value : A) × (answer.1 ≡ ok value))

  Edits-Ends :
      {A : Type 0} (p : Pool) (answer : Pool × Result {0, 0} A OperationError)
      → Edits p answer
      → Ends p answer
  Edits-Ends p answer (inl refusal) = inl refusal
  Edits-Ends p answer (inr (accounts, value, same, e)) = inr (value, ap (λ r. r.1) e)

  add-Ends :
      (p : Pool) (account : Account) (operator_name : Option String) (now : Instant)
      → Ends p (add p account operator_name now)
  unfolding add
  add-Ends p account operator_name now = elim (Option-cases (same_identity_of p account)) [
    | inr (existing, known) ↦
        rw (known, add) (Edits-Ends p _ (add_existing-Edits p account existing operator_name))
    | inl fresh ↦
        rw (fresh, add)
          (elim (add_new-cases p account operator_name now) [
            | inl refusal ↦ inl refusal
            | inr (accounts, name, same, chosen, e) ↦ inr (account.handle, ap (λ r. r.1) e)
          ])
  ]

  -- An add, a re-login, a replaced credential, a renaming, an enabling or a disabling that is
  -- refused leaves the pool as it is, whatever was renamed or looked up on the way.
  pub refused_pool :
      (p : Pool) (account : Account) (operator_name : Option String) (now : Instant) (handle : Uuid)
      (credential : Credential) (profile : Option Profile) (source : Source) (name : String)
      (enabled : Bool)
      → Ends p (add p account operator_name now)
        × Ends p (relogin p account operator_name now)
        × Ends p (replace_credential p handle credential profile source)
        × Ends p (rename p handle name)
        × Ends p (set_enabled p handle enabled)
  refused_pool p account operator_name now handle credential profile source name enabled = (
    add-Ends p account operator_name now,
    Edits-Ends p _ (relogin-Edits p account operator_name now),
    Edits-Ends p _ (replace_credential-Edits p handle credential profile source),
    Edits-Ends p _ (rename-Edits p handle name),
    Edits-Ends p _ (set_enabled-Edits p handle enabled),
  )
