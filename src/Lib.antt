-- ===== src/Lib.antt =====
-- Jaynshare pools the accounts of a team behind one proxy: it picks an account for each attempt, keeps
-- what the upstream says of each account's quota, paces the attempts after a throttle, and remembers
-- which session runs on which account. These files model that pool, src/pool of the crate, the refresh
-- of its tokens, the registry of the clients that may use it, and of the data plane what a request says of
-- its sender and its account and what a relayed body says of its tokens.
--
-- How the parts interact: a response gives observations and perhaps a 429, which Quota turns into
-- buckets, holds and a classification. Selection reads the accounts' buckets, the sessions' loads of
-- Sessions and the settings, and answers with an account or the reason why nobody serves. The attempt
-- then passes the account's admission of Ramp, which holds it back during a throttle hold or a ramp.
-- Account holds what the pool persists. The operator's requests change the accounts, their names and the
-- defaults of Pool/Operations. Refresh renews a token family by calls outside any lock, and publishes the
-- result only over the family that it was sent for. Registry knows the clients by the verifiers of Secret,
-- and DataPlane/Principal asks it who sent a request. Config/References refuses an operation for the
-- references that it breaks.
--
-- Which file models what:
--   Quota                src/pool/quota.rs: buckets, `apply`, `expire`, `classify`, `hold_exhausted`
--   Ramp                 src/pool/ramp.rs, `Admission` of src/pool/mod.rs and `hold_throttle` of
--                        src/pool/holds.rs; Ramp/Slots gives the calls in any order as a step relation
--   Account              src/pool/account.rs and `references` of src/pool/mod.rs
--   Account/Persisted    the persisted record of src/pool/account.rs; Account/Persisted/Json its members, as
--                        serde's attributes, `double_option` and `double_time` write and read them
--   Sessions             src/pool/sessions.rs
--   Selection            the data of src/pool/selection.rs; Selection/Glob the patterns, Selection/Bars
--                        the bars on one account, Selection/Pass the rules of `Pass::run` and `select`
--   Pool                 src/pool/mod.rs: the state, the expiry, `predict`; Pool/Bookkeeping is
--                        src/pool/holds.rs, Pool/Operating src/pool/operator.rs, Pool/Publishing the
--                        refreshed families, quota and traffic of src/pool/mod.rs, Pool/Naming and
--                        Pool/Operations src/pool/operations.rs; Pool/Operations/Settled gives the
--                        operations in any order; Pool/Selecting `select` and `choose_initial_default`
--                        of src/pool/mod.rs and the candidate of src/pool/holds.rs; Pool/Retaining
--                        the reload of src/pool/operator.rs and the organisations' records
--   Config               the places of src/config/mod.rs that name accounts; Config/References
--                        src/config/references.rs and `guarded` of src/control/accounts.rs
--   DataPlane            what JSON gives to src/data_plane; DataPlane/Usage is src/data_plane/usage.rs
--                        and DataPlane/Intent src/data_plane/intent.rs, over tokens as lists of bytes;
--                        DataPlane/Principal src/data_plane/principal.rs
--   Refresh              src/pool/refresh.rs and `mutate_pool` of src/server.rs; Refresh/Flights the
--                        operations in flight, and their interleavings under it
--   Secret               src/secret.rs; Secret/Comparing its comparison of digests
--   Registry             src/registry.rs; Registry/History gives its operations in any order, and
--                        Registry/Keeping those without a reissue of one id
--   HashMap              std's `HashMap` as an association list with one entry for each key
--   Time                 `OffsetDateTime` as natural numbers of nanoseconds
--   External             what the crates and std bring: floating-point numbers, case folding, UUIDs;
--                        Scaled is one instance of it, with a float as a number of thousandths
--   Prelude              shared names, tests, lists, results and orders
--   Fixtures             accounts that the runs and examples share
-- Under each component the child modules hold its proofs, and Tests its runs and examples.
--
-- State is passed explicitly: a method on `&mut self` takes the state and returns it. Machine integers
-- are natural numbers with the wrap or the saturation written out (`u64` slots, `u32` exchanges in
-- flight). Loops are recursions on lists, but for the calls of the token endpoint, which run on fuel: three
-- rounds are enough, since the third failure is not retried. Bytes of a text are computed from its
-- characters by UTF-8. What the code draws at random or reads from the clock is an argument.
--
-- The pool reads the headers and the body of a response through the provider's code, which is not
-- modelled: Pool/Bookkeeping takes what that code finds as the fields of a `Response`.
--
-- SHA-256 is a parameter of Secret, Unicode's white space and control characters are of Registry, the JSON
-- of a body is of DataPlane, and base64url, trimming and UTF-8's decoding are of DataPlane/Intent.
--
-- Not modelled: log lines, notifications of waiting attempts, the text of JSON (what it makes of one
-- value is a parameter of Account/Persisted, Pool/Retaining and DataPlane), and everything around the pool: HTTP, TLS, files, the command
-- line, deployment, and the probe of the quota.
-- A hash map's order of iteration is the list's.
pub mod Prelude
pub mod HashMap
pub mod Time
pub mod External
pub mod Scaled
pub mod Fixtures
pub mod Quota
pub mod Ramp
pub mod Account
pub mod Sessions
pub mod Selection
pub mod Pool
pub mod Refresh
pub mod Secret
pub mod Registry
pub mod Config
pub mod DataPlane
