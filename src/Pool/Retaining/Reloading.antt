-- ===== src/Pool/Retaining/Reloading.antt =====
-- What a restart and a reload keep.
use jaynshare.Prelude.{
  String, Bool, false, not, List, [], ◌∷◌, none, some, ◌≡◌, refl, ap, subst, ◌∙◌, ◌==◌, nat_eq,
  string_eq, inl, inr, ◌↔◌, if◌then◌else◌, map, filter, map_some, or, leb, keep_if, In, In-filter,
  filter-In, Eq, arith, ==_refl, Bool-cases, eq_of_==,
}
use jaynshare.Time.{Instant}
use jaynshare.External.{External, Uuid}
use jaynshare.HashMap
use jaynshare.HashMap.{HashMap, IsDistinct}
use jaynshare.HashMap.Laws.{get-insert, get-map_values, get-retain}
use jaynshare.Quota.{Bucket, expire_bucket}
use jaynshare.Selection.{Route}
use jaynshare.Pool.{Pool}
use jaynshare.Pool.Retaining.{
  put, sort, OrganisationJson, written, is_configured, preference_le, retain_route_preferences,
  organisation_quota_records, restore_entry, restore_entries, restore_organisation_quota,
}

-- The sort permutes.
module _ {A : Type 0} (le : A → A → Bool) where
  In-put : (a b : A) (l : List A) → In b (put le a l) ↔ In b (a ∷ l)
  In-put a b [] = ground arith
  In-put a b (c ∷ l) = ground (arith, In-put a b l)

  In-sort : (b : A) (l : List A) → In b (sort le l) ↔ In b l
  unfolding sort
  In-sort b [] = ground arith
  In-sort b (a ∷ l) = ground (arith, In-put a b (sort le l), In-sort b l)

-- Lookups see a sorted map as they see the map.
module _ {K V : Type 0} ⦃e : Eq K⦄ (le : K × V → K × V → Bool) where
  get-put :
      (k : K) (v : V) (m : HashMap K V) (i : K)
      → HashMap.get m k ≡ none
      → HashMap.get (put le (k, v) m) i ≡ (if k == i then some v else HashMap.get m i)
  unfolding HashMap.get
  get-put k v [] i h = refl
  get-put k v ((c, w) ∷ m) i h =
      ground (arith, e.same_iff k i, e.same_iff c k, e.same_iff c i, get-put k v m i)

  put-IsDistinct :
      (k : K) (v : V) (m : HashMap K V)
      → HashMap.get m k ≡ none
      → IsDistinct m
      → IsDistinct (put le (k, v) m)
  unfolding HashMap.get
  put-IsDistinct k v [] h d = (refl, tt)
  put-IsDistinct k v ((c, w) ∷ m) h d =
      ground (arith, e.same_iff k c, e.same_iff c k, get-put k v m c, put-IsDistinct k v m)

  sort_sound :
      (m : HashMap K V)
      → IsDistinct m
      → IsDistinct (sort le m) × ((i : K) → HashMap.get (sort le m) i ≡ HashMap.get m i)
  unfolding sort HashMap.get
  sort_sound [] d = (tt, λ i. refl)
  sort_sound ((k, v) ∷ m) d =
      let (distinct, same) = sort_sound m d.1 in
      let fresh = same k ∙ d.0 in
      (
        put-IsDistinct k v (sort le m) fresh distinct,
        λ i. get-put k v (sort le m) i fresh ∙ rw (same i) refl,
      )

-- An entry of the map is what a lookup finds.
module _ {K V : Type 0} ⦃e : Eq K⦄ where
  In-get : (m : HashMap K V) (k : K) (v : V) → IsDistinct m → In (k, v) m → HashMap.get m k ≡ some v
  unfolding HashMap.get
  In-get [] k v d h = elim h [ ]
  In-get ((c, w) ∷ m) k v d (inl h) =
      let key : k ≡ c = ap (λ r. r.0) h in
      let value : v ≡ w = ap (λ r. r.1) h in rw (key, value, ==_refl c) refl
  In-get ((c, w) ∷ m) k v d (inr h) = ground (arith, e.same_iff c k, In-get m k v d.1 h, d.0)

  get-In : (m : HashMap K V) (k : K) (v : V) → HashMap.get m k ≡ some v → In (k, v) m
  unfolding HashMap.get
  get-In [] k v h = ground arith
  get-In ((c, w) ∷ m) k v h = ground (arith, e.same_iff c k, get-In m k v)

module _ ⦃x : External⦄ where
  -- A reload keeps a route preference exactly if its route is configured, for the same account, and
  -- what it answers are exactly the others.
  pub retain_route_preferences_sound :
      (p : Pool) (routes : List Route) (name : String) (handle : Uuid)
      → IsDistinct p.operator.route_preferences
      → (HashMap.get (retain_route_preferences p routes).0.operator.route_preferences name
          ≡ keep_if
              (λ h. is_configured routes name)
              (HashMap.get p.operator.route_preferences name))
        × (In (name, handle) (retain_route_preferences p routes).1
            ↔ (HashMap.get p.operator.route_preferences name ≡ some handle)
              × (is_configured routes name ≡ false))
  unfolding retain_route_preferences
  retain_route_preferences_sound p routes name handle d =
      let m = p.operator.route_preferences in
      let is_dropped : String × Uuid → Bool = λ e. not (is_configured routes e.0) in
      let sorted = In-sort preference_le (name, handle) (filter is_dropped m) in
      (
        get-retain (λ n a. is_configured routes n) m name d,
        (
          λ h.
              let (held, dropped) = In-filter is_dropped m (name, handle) (sorted.0 h) in
              (In-get m name handle d held, ground (arith, dropped)),
          λ h. sorted.1 (
              filter-In is_dropped m (name, handle) (get-In m name handle h.0)
                (ground (arith, h.1))),
        ),
      )

module _ ⦃x : External⦄ (j : OrganisationJson) where
  open j use {Value, to_value, with_organisation, organisation_of, from_value}

  -- JSON keeps the map's entries: what is written of them is read.
  abbrev pub IsKept : HashMap Uuid Bucket → Type 0
  IsKept m =
      (o : Uuid) (b : Bucket)
      → In (o, b) m
      → (organisation_of (with_organisation (to_value b) o) ≡ some o)
        × (from_value (with_organisation (to_value b) o) ≡ some b)

  restore_entry-written :
      (m : HashMap Uuid Bucket) (o : Uuid) (b : Bucket)
      → IsKept ((o, b) ∷ [])
      → restore_entry j m (written j (o, b)) ≡ HashMap.insert m o b
  unfolding restore_entry
  restore_entry-written m o b h =
      let read = h o b (inl refl) in rw (read.0, read.1, restore_entry) refl

  restore_entries-written :
      (l m : HashMap Uuid Bucket) (o : Uuid)
      → IsKept l
      → IsDistinct l
      → HashMap.get (restore_entries j m (map (written j) l)) o
        ≡ or (HashMap.get l o) (HashMap.get m o)
  unfolding restore_entries HashMap.get
  restore_entries-written [] m o h d = refl
  restore_entries-written ((k, b) ∷ l) m o h d =
      ap (λ n. HashMap.get (restore_entries j n (map (written j) l)) o)
        (restore_entry-written m k b
          (λ o c at. elim at [ inl e ↦ h o c (inl e) | inr later ↦ elim later [ ] ]))
      ∙ (restore_entries-written l (HashMap.insert m k b) o (λ i c at. h i c (inr at)) d.1
          ∙ rw (get-insert m k o b) (elim (Bool-cases (k == o)) [
            | inl e ↦ rw (e, subst (λ i. HashMap.get l i ≡ none) (eq_of_== k o e) d.0) refl
            | inr e ↦ rw e refl
          ]))

  -- A restart restores the quota of every organisation as it was written, expired, and keeps what
  -- the pool has for the others, where JSON keeps what is written of the entries.
  pub restore_organisation_quota-records :
      (p q : Pool) (now : Instant) (o : Uuid)
      → IsKept p.organisation_quota
      → IsDistinct p.organisation_quota
      → HashMap.get
          (restore_organisation_quota j q (organisation_quota_records j p) now).organisation_quota
          o
        ≡ map_some
            (λ b. (expire_bucket b now).0)
            (or (HashMap.get p.organisation_quota o) (HashMap.get q.organisation_quota o))
  unfolding restore_organisation_quota organisation_quota_records
  restore_organisation_quota-records p q now o h d =
      let by_key : Uuid × Bucket → Uuid × Bucket → Bool = λ a b. leb a.0 b.0 in
      let (distinct, same) = sort_sound by_key p.organisation_quota d in
      let records = map (written j) (sort by_key p.organisation_quota) in
      get-map_values (λ b. (expire_bucket b now).0) (restore_entries j q.organisation_quota records)
        o
      ∙ ap (map_some (λ b. (expire_bucket b now).0)) (
          restore_entries-written (sort by_key p.organisation_quota) q.organisation_quota o
            (λ i b at. h i b ((In-sort by_key (i, b) p.organisation_quota).0 at)) distinct
          ∙ rw (same o) refl)
