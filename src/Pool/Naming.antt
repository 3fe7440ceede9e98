-- ===== src/Pool/Naming.antt =====
-- The identities and the names of src/pool/operations.rs: when two logins are one account, and the name
-- that an account gets when the operator gives none.
use Prim.Native.String.{◌++◌ as append}
use jaynshare.Prelude.{
  String, Bool, false, not, ◌&&◌, ◌||◌, List, [], ◌∷◌, ◌++◌, Option, none, some, Result, ok, err,
  ◌==◌, nat_eq, string_eq, option_eq, if◌then◌else◌, any, filter, find, length, map, map_some,
  unwrap_or, is_some, is_some_and,
}
use jaynshare.External.{External, Uuid}
use jaynshare.Quota.{Kind}
use jaynshare.Account.{Account, Provider, anthropic, codex, provider_eq, Profile, kind}
use jaynshare.Pool.{Pool}
use jaynshare.Pool.Publishing.{is_oauth}

pub data Why : Type 0 where
  unresolvable ambiguous : Why

pub record ReferenceConflict : Type 0 where
  pub entry : String
  pub reference : String
  pub why : Why

pub data OperationError : Type 0 where
  not_found : OperationError
  name_empty : OperationError
  name_conflict : String → OperationError
  name_mismatch : String → OperationError
  kind_mismatch : Kind → Kind → OperationError
  identity_mismatch : OperationError
  not_owner : OperationError
  new_account : OperationError
  reference_conflict : List ReferenceConflict → OperationError

abbrev pub provider_text : Provider → String
provider_text anthropic = "anthropic"
provider_text codex = "codex"

-- `(Some(x), Some(y))`
abbrev pub both {ℓ} : {A : Type ℓ} → Option A → Option A → Option (A × A)
both (some a) (some b) = some (a, b)
both _ _ = none

abbrev pub same_organisation : Profile → Profile → Bool
same_organisation a b = elim (both a.organization_uuid b.organization_uuid) [
  | some pair ↦ pair.0 == pair.1
  | none ↦
      not (is_some a.organization_uuid || is_some b.organization_uuid)
      && a.organization_name == b.organization_name
]

unfoldable pub same_identity : Profile → Profile → Bool
same_identity a b = elim (both a.chatgpt_account_id b.chatgpt_account_id) [
  | some pair ↦ pair.0 == pair.1 && is_some a.email && a.email == b.email
  | none ↦ elim (both a.account_uuid b.account_uuid) [
    | some pair ↦ pair.0 == pair.1 && same_organisation a b
    | none ↦ false
  ]
]

-- An organisation's name and UUID.
abbrev pub Holder : Type 0
Holder = Option String × Option Uuid

abbrev pub labelled : String → String → String
labelled email label = append email (append " (" (append label ")"))

module _ ⦃x : External⦄ where
  open x use {fold, uuid_text}

  unfoldable pub same_identity_of : Pool → Account → Option Account
  same_identity_of p candidate =
      find
        (λ (a : Account).
          a.provider == candidate.provider
          && is_oauth (kind a)
          && same_identity a.profile candidate.profile)
        p.accounts

  unfoldable pub name_taken : Pool → String → Option Uuid → Bool
  name_taken p name except =
      any (λ (a : Account). not (some a.handle == except) && fold a.display_name == fold name)
        p.accounts

  -- The closure `holds` of `derive_name`.
  abbrev pub holds : String → Provider → Account → Bool
  holds email provider a =
      a.provider == provider && is_some_and a.profile.email (λ e. fold e == fold email)

  abbrev pub holder_of : Account → Holder
  holder_of a = (a.profile.organization_name, a.profile.organization_uuid)

  abbrev pub email_of : Account → String
  email_of a = unwrap_or a.profile.email (uuid_text a.handle)

  unfoldable pub holders : List Account → Account → List Holder
  holders accounts newcomer =
      map holder_of (filter (holds (email_of newcomer) newcomer.provider) accounts)
      ++ (holder_of newcomer ∷ [])

  -- The organisation's name stands once among the holders.
  unfoldable pub is_unique : List Holder → String → Bool
  is_unique all name =
      length (filter (λ (o : Holder). is_some_and o.0 (λ m. fold m == fold name)) all) == 1

  unfoldable pub label : List Holder → Account → Holder → String
  label all newcomer (some name, uuid) =
      if is_unique all name
      then name
      else unwrap_or (map_some uuid_text uuid) (uuid_text newcomer.handle)
  label all newcomer (none, uuid) = unwrap_or (map_some uuid_text uuid) (uuid_text newcomer.handle)

  -- The name by which a sole holder of the email goes.
  unfoldable pub sole_name : List Account → Account → String
  sole_name accounts newcomer =
      let email = email_of newcomer in
      if any
        (λ (a : Account).
          not (a.provider == newcomer.provider) && fold a.display_name == fold email)
        accounts
      then labelled email (provider_text newcomer.provider)
      else email

  -- The derived form of the holder's own organisation.
  abbrev pub derived : String → Holder → Option String
  derived email (some name, uuid) = some (labelled email name)
  derived email (none, uuid) = map_some (λ u. labelled email (uuid_text u)) uuid

  abbrev pub relabelled : String → String → Account → Account
  relabelled email new_label a = elim (derived email (holder_of a)) [
    | none ↦ a
    | some form ↦
        if fold a.display_name == fold email || a.display_name == form
        then record a { display_name = labelled (unwrap_or a.profile.email email) new_label }
        else a
  ]

  -- The loop over the holders in the pool.
  unfoldable pub relabel : List Holder → Account → List Account → List Account
  relabel all newcomer [] = []
  relabel all newcomer (a ∷ l) =
      (if holds (email_of newcomer) newcomer.provider a
        then relabelled (email_of newcomer) (label all newcomer (holder_of a)) a
        else a)
      ∷ relabel all newcomer l

  -- The first label's name that an account outside the holders has.
  unfoldable pub label_conflict : List Account → Account → Option String
  label_conflict accounts newcomer =
      let all = holders accounts newcomer in
      let email = email_of newcomer in
      find
        (λ name.
          any
            (λ (a : Account).
              not (holds email newcomer.provider a) && fold a.display_name == fold name)
            accounts)
        (map (λ o. labelled email (label all newcomer o)) all)

  -- The accounts, some renamed, and the newcomer's name.
  unfoldable pub derive_name : Pool → Account → Pool × Result {0, 0} String OperationError
  derive_name p newcomer =
      let all = holders p.accounts newcomer in
      let alone = sole_name p.accounts newcomer in
      if length all == 1 && not (name_taken p alone none)
      then (p, ok alone)
      else elim (label_conflict p.accounts newcomer) [
        | some name ↦ (p, err (name_conflict name))
        | none ↦ (
          record p { accounts = relabel all newcomer p.accounts },
          ok (labelled (email_of newcomer) (label all newcomer (holder_of newcomer))),
        )
      ]
