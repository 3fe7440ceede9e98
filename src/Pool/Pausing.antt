-- ===== src/Pool/Pausing.antt =====
-- The throttle holds of src/pool/holds.rs: what sets them, and what a revalidation clears.
use jaynshare.Prelude.{
  String, ◌+◌, ◌≡◌, ◌≤◌, ◌<◌, inl, inr, refl, ◌∙◌, sym, ap, List, [], ◌∷◌, Option, none, some,
  unwrap_or, max, arith, All, string_eq, nat_eq, Option-cases, map,
}
use jaynshare.Time.{Instant, running, seconds}
use jaynshare.External.{External, Uuid}
use jaynshare.HashMap
use jaynshare.HashMap.Laws.{get-insert_self}
use jaynshare.Quota.{Bucket, Classification, throttle_hold_seconds}
use jaynshare.Quota.Holds.{throttle_hold_seconds_bounds}
use jaynshare.Account.{Account}
use jaynshare.Ramp.{RampSettings, Admission, hold_throttle, clear_throttle_hold, idle}
use jaynshare.Pool.{Pool, get}
use jaynshare.Pool.Holding.{find-change_account}
use jaynshare.Pool.Bookkeeping.{
  Response, change_admission, classified, hold_classified, record_429, forget_held,
  clear_holds_after_revalidation, throttle_hold_end,
}

module _ ⦃x : External⦄ where
  extended_pause :
      (m : Admission) (until now : Instant)
      → now < until
      → (end : Instant) × (running (hold_throttle until m).throttle_hold_until now ≡ some end)
        × (until ≤ end)
        × ((before : Instant) → running m.throttle_hold_until now ≡ some before → before ≤ end)
  unfolding hold_throttle
  extended_pause m until now h = (
    elim m.throttle_hold_until [ none ↦ until | some held ↦ max held until ],
    ground arith,
    ground arith,
    λ before e. ground arith,
  )

  -- The account's admission, as it is or idle.
  abbrev admission_of : Pool → Uuid → Admission
  admission_of p handle = unwrap_or (HashMap.get p.admission handle) idle

  record_429-admission :
      (p : Pool) (handle : Uuid) (a : Account) (model : Option String) (r : Response)
      (now : Instant)
      → get p handle ≡ some a
      → classified p a model r ≡ Classification.throttle
      → HashMap.get (record_429 p handle model r now).0.admission handle
        ≡ some
            (record (hold_throttle
              (now + seconds (throttle_hold_seconds r.retry_after))
              (admission_of p handle)) { last_429 = some now })
  unfolding record_429 hold_classified change_admission
  record_429-admission p handle a model r now at class =
      rw (at, record_429)
        (rw (class, hold_classified)
          (get-insert_self _ handle _
            ∙ ap (λ o. some (record (unwrap_or o idle) { last_429 = some now }))
                (get-insert_self p.admission handle _)))

  hold_end_of :
      (p : Pool) (handle : Uuid) (now : Instant)
      → throttle_hold_end p handle now ≡ running (admission_of p handle).throttle_hold_until now
  unfolding throttle_hold_end
  hold_end_of p handle now = elim (Option-cases (HashMap.get p.admission handle)) [
    | inl e ↦ rw e refl
    | inr (m, e) ↦ rw e refl
  ]

  -- After a 429 that `record_429` classifies as a throttle, a throttle hold runs on the account
  -- that lasts at least a second and is no shorter than the hold that ran.
  pub record_429-paused :
      (p : Pool) (handle : Uuid) (a : Account) (model : Option String) (r : Response)
      (now : Instant)
      → get p handle ≡ some a
      → classified p a model r ≡ Classification.throttle
      → (end : Instant) × (throttle_hold_end (record_429 p handle model r now).0 handle now
          ≡ some end)
        × (now + seconds 1 ≤ end)
        × ((before : Instant) → throttle_hold_end p handle now ≡ some before → before ≤ end)
  unfolding throttle_hold_end
  record_429-paused p handle a model r now at class =
      let wait = throttle_hold_seconds r.retry_after in
      let floor = throttle_hold_seconds_bounds r.retry_after in
      let (end, runs, late, longer) =
        extended_pause (admission_of p handle) (now + seconds wait) now (omega arith) in
      (
        end,
        rw (record_429-admission p handle a model r now at class) runs,
        omega arith,
        λ before e. longer before (sym (hold_end_of p handle now) ∙ e),
      )

  forget_held-clear :
      (now : Instant) (b : Bucket) → running (forget_held now b).exhaustion_hold_until now ≡ none
  unfolding forget_held
  forget_held-clear now b = ground arith

  forgotten_everywhere :
      (now : Instant) (bs : List Bucket)
      → All (λ (b : Bucket). running b.exhaustion_hold_until now ≡ none) (map (forget_held now) bs)
  forgotten_everywhere now [] = tt
  forgotten_everywhere now (b ∷ bs) = (forget_held-clear now b, forgotten_everywhere now bs)

  clear_throttle_hold-clear :
      (ramp : RampSettings) (now : Instant) (m : Admission)
      → running (clear_throttle_hold ramp now m).throttle_hold_until now ≡ none
  unfolding clear_throttle_hold
  clear_throttle_hold-clear ramp now m = ground arith

  -- `clear_holds_after_revalidation` leaves no running hold on any bucket of the account itself,
  -- and no running throttle hold.
  pub cleared_holds :
      (p : Pool) (handle : Uuid) (a : Account) (ramp : RampSettings) (now : Instant)
      → get p handle ≡ some a
      → (b : Account) × (get (clear_holds_after_revalidation p handle ramp now) handle ≡ some b)
        × All (λ (c : Bucket). running c.exhaustion_hold_until now ≡ none) b.quota
        × (throttle_hold_end (clear_holds_after_revalidation p handle ramp now) handle now ≡ none)
  unfolding get clear_holds_after_revalidation throttle_hold_end
  cleared_holds p handle a ramp now at = (
    record a { quota = map (forget_held now) a.quota },
    find-change_account handle (λ b. record b { quota = map (forget_held now) b.quota }) p.accounts
        a (λ b. refl) at,
    forgotten_everywhere now a.quota,
    elim (Option-cases (HashMap.get p.admission handle)) [
      | inl e ↦ rw (e, e) refl
      | inr (m, e) ↦ rw e (
          rw (get-insert_self p.admission handle (clear_throttle_hold ramp now m))
            (clear_throttle_hold-clear ramp now m))
    ],
  )
