-- ===== src/Selection/Answers.antt =====
-- What single rules of src/pool/selection.rs promise: the pin, the bound session, the ranking, the
-- default's moves, the advisor fallback.
use jaynshare.Prelude.{
  ◌≡◌, ◌⊎◌, inl, inr, refl, sym, subst, Bool, true, false, Option, none, some, Result, ok, err,
  arith, is_empty, String, ok_injective, pair_order, int_order, bool_order, option_order, nat_eq,
}
use jaynshare.External.{External, Uuid}
use jaynshare.Selection.{Choice, Nobody, Cause, NoService, RequestFacts}
use jaynshare.Selection.Bars.{SelectionSettings}
use jaynshare.Selection.Glob.{flatten}
use jaynshare.Selection.Pass.{Pass, Snapshot, pinned, binds, run, select, fallback, pass}
use jaynshare.Selection.Serving.{Served, run-Served}

module _ ⦃x : External⦄ where
  -- The answer a pin allows: that account, by the pin, or nobody, naming it.
  abbrev pub Pinned : Uuid → Result {0, 0} Choice Nobody → Type 0
  Pinned pin (ok c) = (c.handle ≡ pin) × (c.cause ≡ Cause.by_pin)
  Pinned pin (err n) =
      (n.reason ≡ NoService.pinned_unavailable) × (n.named_account ≡ some pin) × (n.clears ≡ false)

  pinned-Pinned : (p : Pass) (b : Bool) (pin : Uuid) → Pinned pin (pinned p b pin)
  unfolding pinned
  pinned-Pinned p b pin = ground arith

  run-Pinned : (p : Pass) (pin : Uuid) → p.facts.pin ≡ some pin → Pinned pin (run p)
  unfolding run
  run-Pinned p pin e =
      let same : run p ≡ pinned p (binds p) pin = ground arith in
      subst (Pinned pin) (sym same) (pinned-Pinned p (binds p) pin)

  fallback-Pinned :
      (pin : Uuid) (r : Result {0, 0} Choice Nobody) → Pinned pin r → Pinned pin (fallback r)
  unfolding fallback
  fallback-Pinned pin (ok c) h = h
  fallback-Pinned pin (err n) h = h

  second_chance :
      (P : Result {0, 0} Choice Nobody → Type 0) (first second : Result {0, 0} Choice Nobody)
      (advisor : Option String)
      → P first
      → P second
      → P (elim first [ ok c ↦ ok c | err n ↦ elim advisor [ none ↦ err n | some a ↦ second ] ])
  second_chance P (ok c) second advisor h k = h
  second_chance P (err n) second none h k = h
  second_chance P (err n) second (some a) h k = k

  -- The result of `select` over a pool with accounts: the first pass's, or the second's, which runs
  -- the request model alone and is marked.
  select_cases :
      (P : Result {0, 0} Choice Nobody → Type 0) (facts : RequestFacts) (snapshot : Snapshot)
      (settings : SelectionSettings)
      → is_empty snapshot.accounts ≡ false
      → P (run (pass facts snapshot settings (flatten facts.model facts.advisor_model)))
      → P (fallback (run (pass facts snapshot settings (flatten facts.model none))))
      → P (select facts snapshot settings)
  unfolding select
  select_cases P facts snapshot settings some_account h k =
      rw some_account (second_chance P _ _ facts.advisor_model h k)

  -- Over a pool with accounts a pinned attempt is served by the pinned account with the pin as its
  -- cause, or by nobody, and then the answer is `PinnedUnavailable`, names the pin and does not
  -- clear by itself.
  pub select-Pinned :
      (facts : RequestFacts) (snapshot : Snapshot) (settings : SelectionSettings) (pin : Uuid)
      → is_empty snapshot.accounts ≡ false
      → facts.pin ≡ some pin
      → Pinned pin (select facts snapshot settings)
  select-Pinned facts snapshot settings pin some_account e =
      select_cases (Pinned pin) facts snapshot settings some_account
        (run-Pinned (pass facts snapshot settings _) pin e)
        (fallback-Pinned pin _ (run-Pinned (pass facts snapshot settings _) pin e))

  -- The choice serves as a pass over both models allows, or it is marked as the advisor fallback and
  -- serves as a pass over the request model alone allows.
  abbrev pub ServedBy : RequestFacts → Snapshot → SelectionSettings → Choice → Type 0
  ServedBy facts snapshot settings c =
      Served (pass facts snapshot settings (flatten facts.model facts.advisor_model)) c
      ⊎ ((c.advisor_fallback ≡ true)
          × Served (pass facts snapshot settings (flatten facts.model none)) c)

  fallback_ok :
      (r : Result {0, 0} Choice Nobody) (c : Choice)
      → fallback r ≡ ok c
      → (d : Choice) × (r ≡ ok d) × (record d { advisor_fallback = true } ≡ c)
  unfolding fallback
  fallback_ok (ok d) c h = (d, refl, ok_injective h)
  fallback_ok (err n) c h = cc

  -- Over a pool with accounts, a choice of `select` names an account of the snapshot that the
  -- routes of the models allow, that was not tried before and that no hold, threshold, error or
  -- switch bars; only the account that the session is bound to may be over the threshold. The
  -- models are the request's and the advisor's, or the request's alone and the choice is marked as
  -- the fallback.
  pub select-ServedBy :
      (facts : RequestFacts) (snapshot : Snapshot) (settings : SelectionSettings) (c : Choice)
      → is_empty snapshot.accounts ≡ false
      → select facts snapshot settings ≡ ok c
      → ServedBy facts snapshot settings c
  select-ServedBy facts snapshot settings c some_account =
      select_cases (λ r. r ≡ ok c → ServedBy facts snapshot settings c) facts snapshot settings
        some_account (λ h. inl (run-Served _ c h))
        (λ h.
          let (d, e, same) = fallback_ok _ c h in
          let request_only = pass facts snapshot settings (flatten facts.model none) in
          inr (
            subst (λ k. (k.advisor_fallback ≡ true) × Served request_only k) same
              (refl, run-Served request_only d e)))
