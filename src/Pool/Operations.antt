-- ===== src/Pool/Operations.antt =====
-- The operator's account operations of src/pool/operations.rs. Each returns the pool and its result.
pub mod Endings
pub mod Settled
mod Names
mod Removing
mod Tests
use jaynshare.Prelude.{
  String, Bool, true, false, not, ◌&&◌, ◌||◌, List, [], ◌∷◌, ◌++◌, Option, none, some, Result, ok,
  err, ◌==◌, nat_eq, string_eq, option_eq, if◌then◌else◌, find, head, map_some, is_some, is_none,
  is_some_and, keep_if,
}
use jaynshare.Time.{Instant}
use jaynshare.External.{External, Uuid}
use jaynshare.HashMap
use jaynshare.Quota.{Kind}
use jaynshare.Account.{
  Account, Provider, provider_eq, Profile, Source, Credential, credential_kind, kind,
}
use jaynshare.Sessions.{unbind_account}
use jaynshare.Pool.{Pool, get, accounts_of, default_account}
use jaynshare.Pool.Bookkeeping.{change_account}
use jaynshare.Pool.Operating.{move_default}
use jaynshare.Pool.Publishing.{is_oauth}
use jaynshare.Pool.Naming.{
  OperationError, not_found, name_empty, name_conflict, name_mismatch, kind_mismatch,
  identity_mismatch, not_owner, new_account, same_identity, same_identity_of, name_taken,
  derive_name,
}

-- A credential starts with no refresh history.
abbrev pub without_history : Credential → Credential
without_history (Credential.api_key key) = Credential.api_key key
without_history (Credential.oauth family) = Credential.oauth (record family {
  last_refresh_attempt_at = none;
  last_refresh_success_at = none;
  refresh_not_before = none;
})

module _ ⦃x : External⦄ where
  open x use {fold}

  unfoldable pub install : Account → Credential → Source → Account
  install a credential source = record a {
    credential = without_history credential;
    source = source;
    errored = none;
  }

  -- A fresh account's name: the operator's, if it is free, or one derived.
  unfoldable pub choose_name :
      Pool → Account → Option String → Pool × Result {0, 0} String OperationError
  choose_name p account none = derive_name p account
  choose_name p account (some name) =
      if name_taken p name none then (p, err (name_conflict name)) else (p, ok name)

  -- The new account comes last, and is the default of a provider that has none.
  unfoldable pub push_account : Pool → Account → Instant → Pool
  push_account p account now =
      let pushed = record p { accounts = p.accounts ++ (account ∷ []) } in
      if is_none (default_account pushed account.provider)
      then move_default pushed account.provider (some account.handle) now
      else pushed

  unfoldable pub add_new :
      Pool → Account → Option String → Instant → Pool × Result {0, 0} Uuid OperationError
  add_new p account operator_name now =
      let named = choose_name p account operator_name in
      elim named.1 [
        | err cause ↦ (named.0, err cause)
        | ok name ↦
            (push_account named.0 (record account { display_name = name }) now, ok account.handle)
      ]

  unfoldable pub add_existing :
      Pool → Account → Account → Option String → Pool × Result {0, 0} Uuid OperationError
  add_existing p account existing operator_name =
      if is_some account.owner && not (account.owner == existing.owner)
      then (p, err not_owner)
      else if is_some_and operator_name (λ name. not (fold name == fold existing.display_name))
      then (p, err (name_mismatch existing.display_name))
      else (
        record p {
          accounts =
              change_account existing.handle
                (λ a.
                  install (record a { profile = account.profile }) account.credential
                    account.source)
                p.accounts;
        },
        ok existing.handle,
      )

  unfoldable pub add :
      Pool → Account → Option String → Instant → Pool × Result {0, 0} Uuid OperationError
  add p account operator_name now = elim (same_identity_of p account) [
    | some existing ↦ add_existing p account existing operator_name
    | none ↦ add_new p account operator_name now
  ]

  unfoldable pub relogin :
      Pool → Account → Option String → Instant → Pool × Result {0, 0} Uuid OperationError
  relogin p account operator_name now =
      if is_none (same_identity_of p account)
      then (p, err new_account)
      else add p account operator_name now

  abbrev pub same_kind : Kind → Kind → Bool
  same_kind a b = if is_oauth a then is_oauth b else not (is_oauth b)

  unfoldable pub replace_credential :
      Pool → Uuid → Credential → Option Profile → Source → Pool × Result {0, 0} Unit OperationError
  replace_credential p handle credential profile source = elim (get p handle) [
    | none ↦ (p, err not_found)
    | some a ↦
        if not (same_kind (credential_kind credential) (kind a))
        then (p, err (kind_mismatch (kind a) (credential_kind credential)))
        else elim (keep_if (λ (f : Profile). is_some f.account_uuid) profile) [
          | none ↦ (
            record p {
              accounts = change_account handle (λ b. install b credential source) p.accounts;
            },
            ok tt,
          )
          | some fresh ↦
              if not (same_identity a.profile fresh) then (p, err identity_mismatch) else (
                record p {
                  accounts =
                      change_account handle
                        (λ b. install (record b { profile = fresh }) credential source) p.accounts;
                },
                ok tt,
              )
        ]
  ]

  unfoldable pub rename : Pool → Uuid → String → Pool × Result {0, 0} Unit OperationError
  rename p handle name =
      if name == ""
      then (p, err name_empty)
      else if is_none (get p handle)
      then (p, err not_found)
      else if name_taken p name (some handle)
      then (p, err (name_conflict name))
      else (
        record p {
          accounts = change_account handle (λ a. record a { display_name = name }) p.accounts;
        },
        ok tt,
      )

  unfoldable pub set_enabled : Pool → Uuid → Bool → Pool × Result {0, 0} Unit OperationError
  set_enabled p handle enabled = elim (get p handle) [
    | none ↦ (p, err not_found)
    | some found ↦ (
      record p {
        accounts =
            change_account handle
              (λ a. record a { enabled = enabled; errored = if enabled then none else a.errored })
              p.accounts;
      },
      ok tt,
    )
  ]

  -- `accounts.remove(position of the handle)`
  unfoldable pub remove_account : Uuid → List Account → List Account
  remove_account handle [] = []
  remove_account handle (a ∷ l) = if a.handle == handle then l else a ∷ remove_account handle l

  -- What `remove` forgets of the account.
  unfoldable pub forgotten : Pool → Uuid → Pool
  forgotten p handle = record p {
    accounts = remove_account handle p.accounts;
    usage = HashMap.remove p.usage handle;
    admission = HashMap.remove p.admission handle;
    sessions = unbind_account p.sessions handle;
    operator = record p.operator {
      route_preferences =
          HashMap.retain (λ route h. not (h == handle)) p.operator.route_preferences;
    };
  }

  unfoldable pub remove : Pool → Uuid → Instant → Pool × Option Account
  remove p handle now = elim (get p handle) [
    | none ↦ (p, none)
    | some removed ↦
        let left = forgotten p handle in
        (
          if default_account left removed.provider == some handle
              then move_default left removed.provider
                  (map_some (λ (a : Account). a.handle) (head (accounts_of left removed.provider)))
                  now
              else left,
          some removed,
        )
  ]
