-- ===== src/Secret/Tests.antt =====
-- Secrets and digests of src/secret.rs at concrete texts.
use jaynshare.Prelude.{◌≡◌, refl, true, false}
use jaynshare.Secret.{Hashing, client_secret, operator_secret, matches, verifier_of}
use jaynshare.Secret.Comparing.{constant_time_eq, difference}

-- A digest that shows its input.
instance abbrev plain_hash : Hashing
plain_hash = record { sha256_hex = λ s. s }

own : matches (verifier_of client_secret "jsc2_y") client_secret "jsc2_y" ≡ true
unfolding matches verifier_of constant_time_eq difference
own = refl

another : matches (verifier_of client_secret "jsc2_y") client_secret "jsc2_x" ≡ false
unfolding matches verifier_of constant_time_eq difference
another = refl

foreign : matches (verifier_of client_secret "jsc2_y") operator_secret "jsc2_y" ≡ false
unfolding matches verifier_of
foreign = refl
