-- ===== src/Pool/Holding.antt =====
-- The exhaustion holds that `record_429` of src/pool/holds.rs sets.
use jaynshare.Prelude.{
  ℕ, String, ◌≡◌, ◌⊎◌, inl, inr, refl, ◌∙◌, sym, subst, ap, true, false, List, [], ◌∷◌, Option,
  none, some, ok, ◌≢◌, Bool, filter-In, find_sound, All_In, arith, In, find, if◌then◌else◌,
  string_eq, nat_eq, ◌==◌, map_some, ==_ne, Bool-cases,
}
use mathlib.Core.Option.{some-injective}
use jaynshare.Time.{Instant}
use jaynshare.External.{External, Uuid}
use jaynshare.Quota.{Bucket, State, state, named, apply, Source, hold_exhausted, Classification}
use jaynshare.Quota.Holds.{hold_exhausted-IsHeld}
use jaynshare.Account.{Account, kind}
use jaynshare.Selection.Bars.{
  SelectionSettings, quota_bar, governs, governing_weekly, governing_buckets,
}
use jaynshare.Selection.Barring.{Clear, quota_bar_ok}
use jaynshare.Pool.{Pool, get}
use jaynshare.Pool.Bookkeeping.{
  Response, change_account, hold_named, hold_all, change_admission, classified, hold_exhaustion,
  hold_classified, record_429,
}

module _ ⦃x : External⦄ where
  -- The bucket of the name, if there is one, is exhausted.
  abbrev pub IsBarred : Instant → String → List Bucket → Type 0
  IsBarred now name bs =
      (b : Bucket) → find (named name) bs ≡ some b → state b now ≡ State.exhausted

  held_now :
      (b : Bucket) (r : Option ℕ) (now : Instant)
      → state (hold_exhausted b r now) now ≡ State.exhausted
  held_now b r now =
      let (end, same, held, until) = hold_exhausted-IsHeld b r now in until now held.ahead

  hold_exhausted-name :
      (b : Bucket) (r : Option ℕ) (now : Instant) → (hold_exhausted b r now).name ≡ b.name
  unfolding hold_exhausted
  hold_exhausted-name b r now = refl

  find-hold_named :
      (n k : String) (r : Option ℕ) (now : Instant) (bs : List Bucket)
      → find (named k) (hold_named r now n bs) ≡ (
          if n == k
          then map_some (λ b. hold_exhausted b r now) (find (named k) bs)
          else find (named k) bs)
  unfolding hold_named named hold_exhausted
  find-hold_named n k r now [] = ground arith
  find-hold_named n k r now (b ∷ bs) = ground (
    arith,
    string_eq.same_iff n k,
    string_eq.same_iff b.name n,
    string_eq.same_iff b.name k,
    find-hold_named n k r now bs,
  )

  held_found :
      (o : Option Bucket) (r : Option ℕ) (now : Instant) (b : Bucket)
      → map_some (λ c. hold_exhausted c r now) o ≡ some b
      → state b now ≡ State.exhausted
  held_found none r now b e = cc
  held_found (some c) r now b e =
      subst (λ d. state d now ≡ State.exhausted) (some-injective (hold_exhausted c r now) b e)
        (held_now c r now)

  hold_named-IsBarred :
      (n k : String) (r : Option ℕ) (now : Instant) (bs : List Bucket)
      → (n ≡ k) ⊎ IsBarred now k bs
      → IsBarred now k (hold_named r now n bs)
  hold_named-IsBarred n k r now bs why b e =
      let found = find-hold_named n k r now bs in
      elim (Bool-cases (n == k)) [
        | inl same ↦ held_found (find (named k) bs) r now b (sym (found ∙ rw same refl) ∙ e)
        | inr other ↦
            let before : find (named k) bs ≡ some b = sym (found ∙ rw other refl) ∙ e in
            elim why [ inl at ↦ absurd (==_ne n k other at) | inr held ↦ held b before ]
      ]

  hold_all-IsBarred :
      (names : List String) (k : String) (r : Option ℕ) (now : Instant) (bs : List Bucket)
      → In k names ⊎ IsBarred now k bs
      → IsBarred now k (hold_all r now names bs)
  unfolding hold_all
  hold_all-IsBarred [] k r now bs (inl no_name) = elim no_name [ ]
  hold_all-IsBarred [] k r now bs (inr held) = held
  hold_all-IsBarred (n ∷ names) k r now bs (inl (inl e)) =
      hold_all-IsBarred names k r now (hold_named r now n bs)
        (inr (hold_named-IsBarred n k r now bs (inl (sym e))))
  hold_all-IsBarred (n ∷ names) k r now bs (inl (inr later)) =
      hold_all-IsBarred names k r now (hold_named r now n bs) (inl later)
  hold_all-IsBarred (n ∷ names) k r now bs (inr held) =
      hold_all-IsBarred names k r now (hold_named r now n bs)
        (inr (hold_named-IsBarred n k r now bs (inr held)))

  pub find-change_account :
      (handle : Uuid) (f : Account → Account) (l : List Account) (a : Account)
      → ((b : Account) → (f b).handle ≡ b.handle)
      → find (λ (b : Account). b.handle == handle) l ≡ some a
      → find (λ (b : Account). b.handle == handle) (change_account handle f l) ≡ some (f a)
  unfolding change_account
  find-change_account handle f [] a keeps e = cc
  find-change_account handle f (b ∷ l) a keeps e = elim (Bool-cases (b.handle == handle)) [
    | inl same ↦ ground (arith, ap (λ h. h == handle) (keeps b))
    | inr other ↦ ground (arith, find-change_account handle f l a keeps)
  ]

  -- What the exhaustion of the names does to the account.
  abbrev held_names : Response → Instant → List String → Account → Account
  held_names r now names b = record b {
    quota = hold_all r.retry_after now names (apply b.quota r.fresh Source.response_headers now);
  }

  record_429-accounts :
      (p : Pool) (handle : Uuid) (a : Account) (model : Option String) (r : Response)
      (now : Instant) (names : List String)
      → get p handle ≡ some a
      → r.is_spend_cap ≡ false
      → classified p a model r ≡ Classification.exhaustion names
      → (record_429 p handle model r now).0.accounts
        ≡ change_account handle (held_names r now names) p.accounts
  unfolding record_429 hold_classified hold_exhaustion change_admission
  record_429-accounts p handle a model r now names at no_cap class =
      rw (at, record_429) (rw (class, hold_classified) (rw (no_cap, hold_exhaustion) refl))

  -- A 429 that is classified as exhaustion, and is no spend cap, leaves every named bucket of the
  -- account exhausted.
  record_429-IsBarred :
      (p : Pool) (handle : Uuid) (a : Account) (model : Option String) (r : Response)
      (now : Instant) (names : List String) (k : String)
      → get p handle ≡ some a
      → r.is_spend_cap ≡ false
      → classified p a model r ≡ Classification.exhaustion names
      → In k names
      → (b : Account) × (get (record_429 p handle model r now).0 handle ≡ some b)
        × (kind b ≡ kind a)
        × IsBarred now k b.quota
  unfolding get
  record_429-IsBarred p handle a model r now names k at no_cap class m =
      let f = held_names r now names in
      let same = record_429-accounts p handle a model r now names at no_cap class in
      (
        f a,
        ap (find (λ (b : Account). b.handle == handle)) same
            ∙ find-change_account handle f p.accounts a (λ b. refl) at,
        refl,
        hold_all-IsBarred names k r.retry_after now _ (inl m),
      )

  IsBarred-quota_bar :
      (b : Account) (c : Bucket) (now : Instant) (k : String) (settings : SelectionSettings)
      (bound : Bool) (fam override : Option String) (hold : Option Instant)
      → IsBarred now k b.quota
      → find (named k) b.quota ≡ some c
      → governs (kind b) (governing_weekly fam override) c ≡ true
      → quota_bar b settings now bound fam override hold ≢ ok tt
  unfolding governing_buckets
  IsBarred-quota_bar b c now k settings bound fam override hold held e g passed =
      let clear = (quota_bar_ok b settings now bound fam override hold).0 passed in
      let governing = filter-In _ b.quota c (find_sound (named k) b.quota c e).0 g in
      (All_In (Clear settings now bound) _ c clear.2 governing).0 (held c e)

  -- A 429 that `record_429` classifies as exhaustion, and that is no spend cap, shuts the account
  -- out at once: at that instant `quota_bar` refuses every attempt, bound or not, whose governing
  -- buckets include the account's bucket of a name that the classification has.
  pub record_429-barred :
      (p : Pool) (handle : Uuid) (a b : Account) (model : Option String) (r : Response)
      (now : Instant) (names : List String) (k : String) (c : Bucket) (settings : SelectionSettings)
      (bound : Bool) (fam override : Option String) (hold : Option Instant)
      → get p handle ≡ some a
      → r.is_spend_cap ≡ false
      → classified p a model r ≡ Classification.exhaustion names
      → In k names
      → get (record_429 p handle model r now).0 handle ≡ some b
      → find (named k) b.quota ≡ some c
      → governs (kind b) (governing_weekly fam override) c ≡ true
      → quota_bar b settings now bound fam override hold ≢ ok tt
  record_429-barred p handle a b model r now names k c settings bound fam override hold at no_cap
        class m found =
      let (d, seen, _, held) =
        record_429-IsBarred p handle a model r now names k at no_cap class m in
      let same = some-injective d b (sym seen ∙ found) in
      IsBarred-quota_bar b c now k settings bound fam override hold
        (subst (λ (y : Account). IsBarred now k y.quota) same held)
