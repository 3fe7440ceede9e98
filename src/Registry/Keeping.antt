-- ===== src/Registry/Keeping.antt =====
-- What stays true of one client's entry while the operations of src/registry.rs run on, up to a reissue.
use jaynshare.Prelude.{
  String, ◌≡◌, ◌≢◌, refl, sym, ap, ◌∙◌, subst, Bool, true, not, List, [], ◌∷◌, ◌++◌, Option, none,
  some, Result, arith, find, change_first, is_some_and, ◌==◌, string_eq, Bool-cases, Option-cases,
  inl, inr, eq_of_==, find_sound, &&_true, err, ok,
}
use mathlib.Core.Option.{some-injective}
use jaynshare.Time.{Instant}
use jaynshare.Secret.{Hashing, client_secret, generate}
use jaynshare.Registry.{
  Registry, RegistryEntry, Unicode, entry, change_entry, activated, rotated, retired, refusal,
  active_of, is_active, is_pending, is_revoked, set_no_account, provision_operator_secret,
  remove_operator_secret, claim, wrong_code, ClaimCause,
}
use jaynshare.Registry.Claiming.{claim-cases, activated-id, refused_claim}
use jaynshare.Registry.Entries.{entry-change_entry}
use jaynshare.Registry.Refusing.{reissue-cases, rotate-cases, revoke-cases, rename-cases}
use jaynshare.Registry.Enrolling.{issue-cases}
use jaynshare.Registry.History.{Step, Reach, reissued-id, rotated-id}

abbrev pub has : String → RegistryEntry → Bool
has id e = e.id == id

-- The id has an entry, and it passes the test.
abbrev pub Keeps : (RegistryEntry → Bool) → String → Registry → Type 0
Keeps q id r = is_some_and (find (has id) r.clients) q ≡ true

change_first-keeps :
    (q p : RegistryEntry → Bool) (f : RegistryEntry → RegistryEntry) (id : String)
    (l : List RegistryEntry)
    → ((e : RegistryEntry) → (f e).id ≡ e.id)
    → ((e : RegistryEntry) → find (has id) l ≡ some e → p e ≡ true → q e ≡ true → q (f e) ≡ true)
    → is_some_and (find (has id) l) q ≡ true
    → is_some_and (find (has id) (change_first p f l)) q ≡ true
change_first-keeps q p f id [] same still h = h
change_first-keeps q p f id (e ∷ l) same still h = elim (Bool-cases (has id e)) [
  | inl here ↦ elim (Bool-cases (p e)) [
    | inl hit ↦
        rw (hit, ap (λ i. i == id) (same e) ∙ here)
          (still e (rw here refl) hit (sym (rw here refl) ∙ h))
    | inr miss ↦ rw (miss, here) (sym (rw here refl) ∙ h)
  ]
  | inr other ↦
      let rest : is_some_and (find (has id) l) q ≡ true = sym (rw other refl) ∙ h in
      elim (Bool-cases (p e)) [
        | inl hit ↦ rw (hit, ap (λ i. i == id) (same e) ∙ other) rest
        | inr miss ↦
            rw (miss, other)
              (change_first-keeps q p f id l same (λ a at. still a (rw other at)) rest)
      ]
]

append-keeps :
    (q : RegistryEntry → Bool) (id : String) (l : List RegistryEntry) (e : RegistryEntry)
    → is_some_and (find (has id) l) q ≡ true
    → is_some_and (find (has id) (l ++ (e ∷ []))) q ≡ true
append-keeps q id [] e h = cc
append-keeps q id (a ∷ l) e h = ground (arith, append-keeps q id l e)

module _ ⦃h : Hashing⦄ ⦃u : Unicode⦄ where
  -- No operation but a reissue makes the test fail.
  pub record IsStable (q : RegistryEntry → Bool) : Type 0 where
    pub claimed :
        (e : RegistryEntry) (code secret : String) (now : Instant)
        → refusal e code now ≡ none
        → q e ≡ true
        → q (activated now secret e) ≡ true
    pub turned :
        (e : RegistryEntry) (secret : String)
        → is_active e.state ≡ true
        → q e ≡ true
        → q (rotated secret e) ≡ true
    pub ended : (e : RegistryEntry) (now : Instant) → q e ≡ true → q (retired now e) ≡ true
    pub named :
        (e : RegistryEntry) (name : String)
        → q e ≡ true
        → q (record e { display_name = name }) ≡ true
    pub set : (e : RegistryEntry) (b : Bool) → q e ≡ true → q (record e { no_account = b }) ≡ true

  -- The step does not reissue the id.
  abbrev pub Spares : (id : String) {r s : Registry} → Step r s → Type 0
  Spares id (Step.reissues r other drawn now lifetime) = other ≢ id
  Spares id (Step.issues r other name drawn now lifetime) = Unit
  Spares id (Step.claims r other code drawn now) = Unit
  Spares id (Step.sets r other no_account) = Unit
  Spares id (Step.rotates r other drawn) = Unit
  Spares id (Step.revokes r other now) = Unit
  Spares id (Step.renames r other name) = Unit
  Spares id (Step.provisions r now drawn) = Unit
  Spares id (Step.removes r) = Unit

  -- The registries that the operations lead to from one, without a reissue of the id.
  pub data Since (id : String) (r : Registry) : Registry → Type 0 where
    begin : Since id r r
    next : {s t : Registry} → Since id r s → (step : Step s t) → Spares id step → Since id r t

  -- A change of one entry, on the entry of the id if it is that one.
  changed-Keeps :
      (q : RegistryEntry → Bool) (r : Registry) (id other : String)
      (f : RegistryEntry → RegistryEntry)
      → ((e : RegistryEntry) → (f e).id ≡ e.id)
      → ((e : RegistryEntry) → other ≡ id → entry r id ≡ some e → q e ≡ true → q (f e) ≡ true)
      → Keeps q id r
      → Keeps q id (change_entry other f r)
  unfolding change_entry entry
  changed-Keeps q r id other f same still k =
      change_first-keeps q (has other) f id r.clients same
        (λ e at hit good.
          let own = (find_sound (has id) r.clients e at).1 in
          still e (sym (eq_of_== e.id other hit) ∙ eq_of_== e.id id own) at good)
        k

  Step-Keeps :
      {q : RegistryEntry → Bool} (id : String) {r s : Registry}
      → IsStable q
      → (step : Step r s) → Spares id step
      → Keeps q id r
      → Keeps q id s
  unfolding set_no_account provision_operator_secret remove_operator_secret
  Step-Keeps {q} id w (Step.issues r other name drawn now lifetime) m k =
      elim (issue-cases r other name drawn now lifetime) [
        | inl (cause, same) ↦ rw same k
        | inr (text, free, same) ↦ rw same (append-keeps q id r.clients _ k)
      ]
  Step-Keeps {q} id w (Step.reissues r other drawn now lifetime) m k =
      elim (reissue-cases r other drawn now lifetime) [
        | inl (gone, same) ↦ rw same k
        | inr (e, at, same) ↦ rw same (
            changed-Keeps q r id other _ (reissued-id now lifetime _)
              (λ a this found good. elim (m this) [ ]) k)
      ]
  Step-Keeps {q} id w (Step.claims r other code drawn now) m k =
      elim (claim-cases r other code drawn now) [
        | inl (cause, same) ↦ rw same k
        | inr (e, at, fine, same) ↦ rw same (
            changed-Keeps q r id other _ (activated-id now _)
              (λ a this found good.
                let is_it = some-injective e a (sym at ∙ ap (entry r) this ∙ found) in
                w.claimed a code _ now (subst (λ b. refusal b code now ≡ none) is_it fine) good)
              k)
      ]
  Step-Keeps {q} id w (Step.sets r other no_account) m k =
      changed-Keeps q r id other _ (λ a. refl) (λ a this found good. w.set a no_account good) k
  Step-Keeps {q} id w (Step.rotates r other drawn) m k = elim (rotate-cases r other drawn) [
    | inl same ↦ rw same k
    | inr (e, at, same) ↦ rw same (
        change_first-keeps q (active_of other) _ id r.clients (rotated-id _)
          (λ a found hit good.
            w.turned a _ (&&_true (a.id == other) (is_active a.state) hit).1 good)
          k)
  ]
  Step-Keeps {q} id w (Step.revokes r other now) m k = elim (revoke-cases r other now) [
    | inl (gone, same) ↦ rw same k
    | inr (e, at, inl (already, same)) ↦ rw same k
    | inr (e, at, inr (not_yet, same)) ↦
        rw same
          (changed-Keeps q r id other _ (λ a. refl) (λ a this found good. w.ended a now good) k)
  ]
  Step-Keeps {q} id w (Step.renames r other name) m k = elim (rename-cases r other name) [
    | inl (cause, same) ↦ rw same k
    | inr (text, same) ↦
        rw same
          (changed-Keeps q r id other _ (λ a. refl) (λ a this found good. w.named a text good) k)
  ]
  Step-Keeps {q} id w (Step.provisions r now drawn) m k = k
  Step-Keeps {q} id w (Step.removes r) m k = k

  pub Since-Keeps :
      {q : RegistryEntry → Bool} (id : String) {r s : Registry}
      → IsStable q
      → Since id r s
      → Keeps q id r
      → Keeps q id s
  Since-Keeps id w begin k = k
  Since-Keeps id w (next run step spared) k = Step-Keeps id w step spared (Since-Keeps id w run k)

  pub Since-Reach : {id : String} {r s : Registry} → Since id r s → Reach r → Reach s
  Since-Reach begin reached = reached
  Since-Reach (next run step spared) reached = Reach.next (Since-Reach run reached) step

  -- No code is pending, and access is revoked.
  abbrev pub not_pending : RegistryEntry → Bool
  not_pending e = not (is_pending e.state)

  abbrev pub gone : RegistryEntry → Bool
  gone e = is_revoked e.state

  pub not_pending-IsStable : IsStable not_pending
  unfolding activated rotated
  not_pending-IsStable = record {
    claimed = λ e code secret now fine good. refl;
    turned = λ e secret on good. good;
    ended = λ e now good. refl;
    named = λ e name good. good;
    set = λ e b good. good;
  }

  pub gone-IsStable : IsStable gone
  unfolding activated rotated refusal
  gone-IsStable = record {
    claimed = λ e code secret now fine good. ground arith;
    turned = λ e secret on good. good;
    ended = λ e now good. refl;
    named = λ e name good. good;
    set = λ e b good. good;
  }

  wrong_code_lem :
      (e : RegistryEntry) (guess : String) (later : Instant)
      → not_pending e ≡ true
      → refusal e guess later ≡ some wrong_code
  unfolding refusal
  wrong_code_lem e guess later k = ground arith

  -- A claim of an id whose entry is not pending is refused.
  pub claim-not_pending :
      (s : Registry) (id guess again : String) (later : Instant)
      → Keeps not_pending id s
      → claim s id guess later again ≡ (s, err wrong_code)
  unfolding entry
  claim-not_pending s id guess again later k = elim (Option-cases (find (has id) s.clients)) [
    | inl missing ↦ elim (absent k missing) [ ]
    | inr (e, at) ↦
        refused_claim s id guess again later e wrong_code at
          (wrong_code_lem e guess later (sym (rw at refl) ∙ k))
  ]
    where
      absent :
          is_some_and (find (has id) s.clients) not_pending ≡ true
          → find (has id) s.clients ≡ none
          → ⊥
      absent h n = cc

  -- A code is claimed once: in every registry that the operations lead to after a claim that
  -- succeeds, without a reissue of the id, every claim of the id, by that code or another, is
  -- refused as a wrong code and changes nothing.
  pub claim_once :
      (r s : Registry) (id code guess drawn again : String) (now later : Instant)
      (out : RegistryEntry × String)
      → (claim r id code now drawn).1 ≡ ok out
      → Since id (claim r id code now drawn).0 s
      → claim s id guess later again ≡ (s, err wrong_code)
  unfolding entry activated
  claim_once r s id code guess drawn again now later out e since =
      elim (claim-cases r id code drawn now) [
        | inl (cause, bad) ↦ cc
        | inr (found, at, fine, claimed) ↦
            let secret = generate client_secret drawn in
            let there : entry (change_entry id (activated now secret) r) id
                ≡ some (activated now secret found) =
              entry-change_entry r id (activated now secret) (activated-id now secret)
              ∙ rw at refl in
            let first : Keeps not_pending id (claim r id code now drawn).0 =
              rw
                (ap (λ (p : Registry × Result {0, 0} (RegistryEntry × String) ClaimCause). p.0)
                  claimed)
                (ap (λ (o : Option RegistryEntry). is_some_and o not_pending) there) in
            claim-not_pending s id guess again later
              (Since-Keeps id not_pending-IsStable since first)
      ]
