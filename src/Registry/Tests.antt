-- ===== src/Registry/Tests.antt =====
-- One client's life in the registry of src/registry.rs, over a digest that is its input.
use jaynshare.Prelude.{◌≡◌, ◌≢◌, refl, false, [], none, some, ok, err, arith}
use jaynshare.Time.{seconds}
use jaynshare.Secret.Comparing.{constant_time_eq, difference}
use jaynshare.Secret.{matches, verifier_of, Hashing, client_secret, generate}
use jaynshare.Registry.{
  pending_entry, refusal, change_entry, activated, Registry, RegistryEntry, Unicode, wrong_code,
  issue, claim, revoke, reissue, rename, rotate, client_by_secret, entry, validate_id,
  validate_display_name,
}
use jaynshare.Registry.Keeping.{Since, claim_once}
use jaynshare.Registry.Refusing.{Ends, refused_unchanged}
use jaynshare.Registry.Enrolling.{issue-claim}
use jaynshare.Registry.Revoking.{locked_out}
use jaynshare.Registry.History.{Sound, Step, Reach, Reach-Sound}

instance abbrev plain_hash : Hashing
plain_hash = record { sha256_hex = λ s. s }

instance abbrev plain_text : Unicode
plain_text = record { trim = λ s. s; is_control = λ c. false }

abbrev empty : Registry
empty = record { clients = []; operator = none }

-- An invite for `web`.
abbrev invited : Registry
invited = (issue empty "web" "Web" (seconds 100) 600 "x").0

abbrev joined : Registry
joined = (claim invited "web" "jse2_x" (seconds 200) "y").0

invited_code : (issue empty "web" "Web" (seconds 100) 600 "x").1 ≡ ok ("jse2_x", seconds 700)
unfolding issue validate_id validate_display_name entry
invited_code = refl

nobody_known : client_by_secret empty (generate client_secret "y") ≡ none
unfolding client_by_secret
nobody_known = refl

issue-claim_example :
    (e : RegistryEntry) × ((claim invited "web" "jse2_x" (seconds 200) "y").1 ≡ ok (e, "jsc2_y"))
    × (client_by_secret joined "jsc2_y" ≡ some "web")
issue-claim_example =
    issue-claim empty "web" "Web" "x" "y" (seconds 100) (seconds 700) (seconds 200) 600 "jse2_x"
      invited_code (omega arith) nobody_known

invited_reached : Reach invited
invited_reached = Reach.next Reach.begin (Step.issues empty "web" "Web" "x" (seconds 100) 600)

joined_reached : Reach joined
joined_reached = Reach.next invited_reached (Step.claims invited "web" "jse2_x" "y" (seconds 200))

Reach-Sound_example : Sound joined
Reach-Sound_example = Reach-Sound joined joined_reached

abbrev off : Registry
off = (revoke joined "web" (seconds 300)).0

-- A claim and a renaming after the revocation.
abbrev off_later : Registry
off_later = (rename (claim off "web" "jse2_x" (seconds 310) "v").0 "web" "Site").0

off_done : (revoke joined "web" (seconds 300)).1 ≡ ok tt
unfolding issue validate_id validate_display_name entry claim revoke pending_entry refusal matches
    verifier_of constant_time_eq difference change_entry activated
off_done = refl

locked_out_example :
    (client_by_secret off_later "jsc2_y" ≢ some "web")
    × (claim off_later "web" "jse2_x" (seconds 400) "z" ≡ (off_later, err wrong_code))
    × (client_by_secret (reissue off_later "web" (seconds 400) 600 "w").0 "jsc2_y" ≢ some "web")
locked_out_example =
    locked_out joined off_later "web" "jsc2_y" "jse2_x" "w" "z" (seconds 300) (seconds 400) 600
      joined_reached off_done
      (Since.next (Since.next Since.begin (Step.claims off "web" "jse2_x" "v" (seconds 310)) tt)
        (Step.renames _ "web" "Site") tt)

claim_once_example :
    claim (rename joined "web" "Site").0 "web" "jse2_x" (seconds 201) "z"
    ≡ ((rename joined "web" "Site").0, err wrong_code)
claim_once_example =
    claim_once invited (rename joined "web" "Site").0 "web" "jse2_x" "jse2_x" "y" "z" (seconds 200)
      (seconds 201) (_, "jsc2_y") issue-claim_example.1
      (Since.next Since.begin (Step.renames joined "web" "Site") tt)

refused_unchanged_example :
    Ends empty (issue empty "Web" "Web" (seconds 100) 600 "x")
    × Ends empty (reissue empty "Web" (seconds 100) 600 "x")
    × Ends empty (claim empty "Web" "jse2_x" (seconds 100) "x")
    × Ends empty (rotate empty "Web" "x")
    × Ends empty (revoke empty "Web" (seconds 100))
    × Ends empty (rename empty "Web" "Web")
refused_unchanged_example = refused_unchanged empty "Web" "Web" "jse2_x" "x" (seconds 100) 600
