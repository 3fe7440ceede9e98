-- ===== src/Pool/Operations/Tests.antt =====
-- Runs of the account operations of src/pool/operations.rs.
use jaynshare.Prelude.{String, ◌≡◌, refl, true, [], ◌∷◌, none, some, ok, All, map}
use jaynshare.Scaled.{scaled}
use jaynshare.Time.{seconds}
use jaynshare.External.{Uuid}
use jaynshare.Fixtures.{alice, bob, no_profile}
use jaynshare.HashMap
use jaynshare.HashMap.{HashMap}
use jaynshare.Account.{Account, Source, Credential}
use jaynshare.Pool.{Pool, get, from_accounts}
use jaynshare.Pool.Naming.{
  derive_name, holders, sole_name, name_taken, label_conflict, label, is_unique, relabel,
  same_identity_of, same_identity,
}
use jaynshare.Pool.Operations.{
  add, relogin, replace_credential, rename, set_enabled, remove, choose_name, add_new, push_account,
}
use jaynshare.Pool.Operations.Endings.{Ends, refused_pool}
use jaynshare.Pool.Operations.Settled.{Settled, Step, Reach, Reach-Settled}
use jaynshare.Pool.Operations.Names.{GoesBy, rename-GoesBy}
use jaynshare.Pool.Operations.Removing.{IsForgotten, remove-IsForgotten}

abbrev empty : Pool
empty = from_accounts [] (seconds 5)

-- Two logins, the first one removed again.
abbrev two : Pool
two = (add (add empty alice (some "alice") (seconds 10)).0 bob (some "bob") (seconds 20)).0

abbrev one_left : Pool
one_left = (remove two 1 (seconds 30)).0

one_left_reached : Reach one_left
one_left_reached =
    Reach.next
      (Reach.next
        (Reach.next (Reach.begin (seconds 5)) (Step.adds empty alice (some "alice") (seconds 10)))
        (Step.adds (add empty alice (some "alice") (seconds 10)).0 bob (some "bob") (seconds 20)))
      (Step.removes two 1 (seconds 30))

Reach-Settled_example : Settled one_left
Reach-Settled_example = Reach-Settled one_left one_left_reached

-- The pool of alice and bob, without a default.
abbrev pair : Pool
pair = record empty {
  accounts = alice ∷ bob ∷ [];
  usage = (1, record { input_tokens = 1; output_tokens = 1; requests = 1 }) ∷ [];
}

renamed : (rename pair 1 "carol").1 ≡ ok tt
unfolding rename get name_taken from_accounts
renamed = refl

rename-GoesBy_example :
    (a : Account) × (get pair 1 ≡ some a)
    × (get (rename pair 1 "carol").0 1 ≡ some (record a { display_name = "carol" }))
    × All (GoesBy 1 "carol") (rename pair 1 "carol").0.accounts
rename-GoesBy_example = rename-GoesBy pair 1 "carol" renamed

gone : (remove pair 1 (seconds 30)).1 ≡ some alice
unfolding remove get from_accounts
gone = refl

remove-IsForgotten_example : IsForgotten 1 (remove pair 1 (seconds 30)).0
remove-IsForgotten_example = remove-IsForgotten pair 1 (seconds 30) alice gone

refused_pool_example :
    Ends pair (add pair bob (some "alice") (seconds 30))
    × Ends pair (relogin pair bob (some "alice") (seconds 30))
    × Ends pair (replace_credential pair 1 (Credential.api_key "key") none Source.api_key_entry)
    × Ends pair (rename pair 1 "bob")
    × Ends pair (set_enabled pair 1 true)
refused_pool_example =
    refused_pool pair bob (some "alice") (seconds 30) 1 (Credential.api_key "key") none
      Source.api_key_entry "bob" true

-- Two logins of one organisation whose profiles have an email and no account UUID.
abbrev nameless : Uuid → String → Account
nameless handle name = record alice {
  handle = handle;
  display_name = name;
  profile = record no_profile {
    email = some "a@x.io";
    organization_uuid = some 2;
    organization_name = some "One";
  };
}

abbrev first_login : Pool
first_login = record empty { accounts = nameless 1 "a@x.io" ∷ [] }

-- Both end up under the organisation's UUID.
one_name_twice :
    map
      (λ (a : Account). a.display_name)
      (add first_login (nameless 2 "") none (seconds 40)).0.accounts
    ≡ "a@x.io (b)" ∷ "a@x.io (b)" ∷ []
unfolding add add_new choose_name push_account derive_name holders sole_name name_taken
    label_conflict label is_unique relabel same_identity_of same_identity from_accounts
    jaynshare.Pool.Operating.move_default jaynshare.Pool.Operating.set_default
    jaynshare.Pool.default_account HashMap.get HashMap.insert
one_name_twice = refl
