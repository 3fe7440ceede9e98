-- ===== src/Refresh/Flights/Single.antt =====
-- Every order in which callers of `ensure_fresh` in src/pool/refresh.rs join an operation and in which
-- its runner sends the outcome and removes it.
mod Tests
use jaynshare.Prelude.{
  ◌≡◌, ◌≢◌, ◌⊎◌, ◌↔◌, inl, inr, List, [], ◌∷◌, Option, none, some, In, All, All_In, map_some,
  nat_eq, ◌==◌, if◌then◌else◌, refl, arith, Option-cases, Bool-cases, eq_of_==, ==_refl, ==_ne,
  true, Bool, false, sym, ◌∙◌, ap, subst,
}
use jaynshare.Time.{Instant}
use jaynshare.External.{Uuid}
use jaynshare.HashMap
use jaynshare.HashMap.Laws.{get-insert, get-remove}
use jaynshare.Refresh.{Outcome}
use jaynshare.Refresh.Flights.{
  InFlight, Operation, Join, Refreshes, join_or_start, in_flight, send, remove,
}

-- `op` stands in the first list, and the second is what is left without it.
pub data Picked {A : Type 0} (op : A) : List A → List A → Type 0 where
  here : {l : List A} → Picked op (op ∷ l) l
  there : {a : A} {l rest : List A} → Picked op l rest → Picked op (a ∷ l) (a ∷ rest)

module _ {A : Type 0} {op : A} where
  Picked-In : {l rest : List A} (a : A) → Picked op l rest → In a rest → In a l
  Picked-In a here m = inr m
  Picked-In a (there p) (inl e) = inl e
  Picked-In a (there p) (inr m) = inr (Picked-In a p m)

  In-Picked : {l rest : List A} (a : A) → Picked op l rest → In a l → (a ≡ op) ⊎ In a rest
  In-Picked a here m = m
  In-Picked a (there p) (inl e) = inr (inl e)
  In-Picked a (there p) (inr m) = elim (In-Picked a p m) [ inl e ↦ inl e | inr k ↦ inr (inr k) ]

  Picked-at : {l rest : List A} → Picked op l rest → In op l
  Picked-at here = inl refl
  Picked-at (there p) = inr (Picked-at p)

==_false : (a b : Uuid) → a ≢ b → (a == b) ≡ false
==_false a b h = ground (arith, nat_eq.same_iff a b)

if-some :
    {A : Type 0} (b : Bool) (o p : Option A) (a : A)
    → (if b then o else p) ≡ some a
    → ((b ≡ true) × (o ≡ some a)) ⊎ ((b ≡ false) × (p ≡ some a))
if-some true o p a e = inl (refl, e)
if-some false o p a e = inr (refl, e)

module _ (Sender : Type 0) where
  -- No two operations of the list are on one account.
  abbrev pub Alone : List (Operation Sender) → Type 0
  Alone [] = Unit
  Alone (o ∷ os) = ((a : Operation Sender) → In a os → a.handle ≢ o.handle) × Alone os

  -- The registry, the operations that their runners have not removed, the channels on which an outcome
  -- was sent, and those that a caller waits on.
  pub record State : Type 0 where
    pub operations : Refreshes Sender
    pub running : List (Operation Sender)
    pub sent : List Sender
    pub waiting : List Sender

  pub data Step : State → State → Type 0 where
    starts :
        (s : State) (handle : Uuid) (now : Instant) (fresh : Sender) (o : Operation Sender)
        → (join_or_start Sender s.operations handle now fresh).1 ≡ Join.run o
        → Step s (record {
          operations = (join_or_start Sender s.operations handle now fresh).0;
          running = o ∷ s.running;
          sent = s.sent;
          waiting = o.outcome ∷ s.waiting;
        })
    joins :
        (s : State) (handle : Uuid) (now : Instant) (fresh channel : Sender)
        → (join_or_start Sender s.operations handle now fresh).1 ≡ Join.wait channel
        → Step s (record {
          operations = (join_or_start Sender s.operations handle now fresh).0;
          running = s.running;
          sent = s.sent;
          waiting = channel ∷ s.waiting;
        })
    sends :
        (s : State) (o : Operation Sender) (outcome : Outcome)
        → In o s.running
        → Step s (record {
          operations = s.operations;
          running = s.running;
          sent = (send Sender o outcome).0 ∷ s.sent;
          waiting = s.waiting;
        })
    removes :
        (s : State) (o : Operation Sender) (rest : List (Operation Sender))
        → Picked o s.running rest
        → In o.outcome s.sent
        → Step s (record {
          operations = remove Sender s.operations o;
          running = rest;
          sent = s.sent;
          waiting = s.waiting;
        })

  pub data Reach : State → Type 0 where
    begin : Reach (record { operations = []; running = []; sent = []; waiting = [] })
    next : {s t : State} → Reach s → Step s t → Reach t

  abbrev channel_of : Refreshes Sender → Uuid → Option Sender
  channel_of operations handle =
      map_some (λ (f : InFlight Sender). f.outcome) (HashMap.get operations handle)

  -- The registry holds exactly the running operations, one to an account, and every waiting caller
  -- has a running operation or its outcome.
  record Sound (s : State) : Type 0 where
    alone : Alone s.running
    registered :
        (o : Operation Sender) → In o s.running → channel_of s.operations o.handle ≡ some o.outcome
    runs :
        (handle : Uuid) (channel : Sender)
        → channel_of s.operations handle ≡ some channel
        → In (record { handle = handle; outcome = channel }) s.running
    answered :
        (channel : Sender)
        → In channel s.waiting
        → ((o : Operation Sender) × In o s.running × (o.outcome ≡ channel)) ⊎ In channel s.sent

  Picked-Alone :
      {o : Operation Sender} {l rest : List (Operation Sender)}
      → Picked o l rest
      → Alone l
      → Alone rest × ((a : Operation Sender) → In a rest → a.handle ≢ o.handle)
  Picked-Alone here i = (i.1, i.0)
  Picked-Alone {o} (there {a} p) i =
      let (apart, others) = Picked-Alone p i.1 in
      (
        ((λ b m. i.0 b (Picked-In b p m)), apart),
        λ b m. elim m [
          | inl e ↦ λ same. i.0 o (Picked-at p) (sym (subst (λ c. c.handle ≡ o.handle) e same))
          | inr k ↦ others b k
        ],
      )

  channel_of-remove :
      (operations : Refreshes Sender) (handle other : Uuid)
      → channel_of (HashMap.remove operations handle) other
        ≡ (if handle == other then none else channel_of operations other)
  channel_of-remove operations handle other =
      rw (get-remove operations handle other)
        (elim (Bool-cases (handle == other)) [ inl e ↦ rw e refl | inr e ↦ rw e refl ])

  channel_of-insert :
      (operations : Refreshes Sender) (handle other : Uuid) (now : Instant) (fresh : Sender)
      → channel_of
          (HashMap.insert operations handle (record { started_at = now; outcome = fresh }))
          other
        ≡ (if handle == other then some fresh else channel_of operations other)
  channel_of-insert operations handle other now fresh =
      rw (get-insert operations handle other (record { started_at = now; outcome = fresh }))
        (elim (Bool-cases (handle == other)) [ inl e ↦ rw e refl | inr e ↦ rw e refl ])

  join_or_start-wait :
      (operations : Refreshes Sender) (handle : Uuid) (now : Instant) (fresh channel : Sender)
      → (join_or_start Sender operations handle now fresh).1 ≡ Join.wait channel
      → (channel_of operations handle ≡ some channel)
        × ((join_or_start Sender operations handle now fresh).0 ≡ operations)
  unfolding join_or_start
  join_or_start-wait operations handle now fresh channel e = ground arith

  join_or_start-run :
      (operations : Refreshes Sender) (handle : Uuid) (now : Instant) (fresh : Sender)
      (o : Operation Sender)
      → (join_or_start Sender operations handle now fresh).1 ≡ Join.run o
      → (channel_of operations handle ≡ none)
        × (o ≡ record { handle = handle; outcome = fresh })
        × ((join_or_start Sender operations handle now fresh).0
            ≡ HashMap.insert operations handle (record { started_at = now; outcome = fresh }))
  unfolding join_or_start
  join_or_start-run operations handle now fresh o e = ground arith

  apart_from :
      (s : State) (handle : Uuid)
      → channel_of s.operations handle ≡ none
      → Sound s
      → (a : Operation Sender) → In a s.running
      → a.handle ≢ handle
  apart_from s handle free i a m same =
      let held = subst (λ h. channel_of s.operations h ≡ some a.outcome) same (i.registered a m) in
      cc

  started-Sound :
      (s : State) (handle : Uuid) (now : Instant) (fresh : Sender)
      → channel_of s.operations handle ≡ none
      → Sound s
      → Sound (record {
        operations =
            HashMap.insert s.operations handle (record { started_at = now; outcome = fresh });
        running = record { handle = handle; outcome = fresh } ∷ s.running;
        sent = s.sent;
        waiting = fresh ∷ s.waiting;
      })
  started-Sound s handle now fresh free i = record {
    alone = (apart_from s handle free i, i.alone);
    registered = λ a m. channel_of-insert s.operations handle a.handle now fresh ∙ elim m [
      | inl this ↦ rw (this, ==_refl handle) refl
      | inr before ↦
          rw (==_false handle a.handle (λ same. apart_from s handle free i a before (sym same)))
            (i.registered a before)
    ];
    runs = λ other channel e.
        elim (if-some (handle == other) (some fresh) (channel_of s.operations other) channel
          (sym (channel_of-insert s.operations handle other now fresh) ∙ e)) [
            | inl (same, this) ↦ let here = eq_of_== handle other same in inl cc
            | inr (apart, held) ↦ inr (i.runs other channel held)
          ];
    answered = λ channel m. elim m [
      | inl this ↦ inl (record { handle = handle; outcome = fresh }, inl refl, sym this)
      | inr before ↦ elim (i.answered channel before) [
        | inl (a, ma, same) ↦ inl (a, inr ma, same)
        | inr done ↦ inr done
      ]
    ];
  }

  joined-Sound :
      (s : State) (channel : Sender) (handle : Uuid)
      → channel_of s.operations handle ≡ some channel
      → Sound s
      → Sound (record s { waiting = channel ∷ s.waiting })
  joined-Sound s channel handle held i = record {
    alone = i.alone;
    registered = i.registered;
    runs = i.runs;
    answered = λ other m. elim m [
      | inl this ↦
          inl (record { handle = handle; outcome = channel }, i.runs handle channel held, sym this)
      | inr before ↦ i.answered other before
    ];
  }

  Step-Sound : {s t : State} → Step s t → Sound s → Sound t
  unfolding send remove
  Step-Sound (starts s handle now fresh o e) i =
      let (free, this, registry) = join_or_start-run s.operations handle now fresh o e in
      rw (registry, this) (started-Sound s handle now fresh free i)
  Step-Sound (joins s handle now fresh channel e) i =
      let (held, registry) = join_or_start-wait s.operations handle now fresh channel e in
      rw registry (joined-Sound s channel handle held i)
  Step-Sound (sends s o outcome stands) i = record {
    alone = i.alone;
    registered = i.registered;
    runs = i.runs;
    answered = λ channel m. elim (i.answered channel m) [
      | inl running ↦ inl running
      | inr done ↦ inr (inr done)
    ];
  }
  Step-Sound (removes s o rest p told) i =
      let (alone_rest, apart) = Picked-Alone p i.alone in
      record {
        alone = alone_rest;
        registered = λ a m.
            channel_of-remove s.operations o.handle a.handle
            ∙ rw (==_false (o.handle) a.handle (λ same. apart a m (sym same)))
                (i.registered a (Picked-In a p m));
        runs = λ handle channel e.
            elim (if-some (o.handle == handle) none (channel_of s.operations handle) channel
              (sym (channel_of-remove s.operations o.handle handle) ∙ e)) [
                | inl (same, nothing) ↦ cc
                | inr (other, held) ↦ elim (In-Picked _ p (i.runs handle channel held)) [
                  | inl this ↦
                      elim (==_ne o.handle handle other
                        (sym (ap (λ (b : Operation Sender). b.handle) this))) [ ]
                  | inr m ↦ m
                ]
              ];
        answered = λ channel m. elim (i.answered channel m) [
          | inl (a, ma, same) ↦ elim (In-Picked a p ma) [
            | inl this ↦ inr (
                subst (λ c. In c s.sent)
                  (sym (ap (λ (b : Operation Sender). b.outcome) this) ∙ same) told)
            | inr other ↦ inl (a, other, same)
          ]
          | inr done ↦ inr done
        ];
      }

  Reach-Sound : {s : State} → Reach s → Sound s
  unfolding HashMap.get
  Reach-Sound begin = record {
    alone = tt;
    registered = λ o m. elim m [ ];
    runs = λ handle channel e. cc;
    answered = λ channel m. elim m [ ];
  }
  Reach-Sound (next r step) = Step-Sound step (Reach-Sound r)

  free-join_or_start :
      (operations : Refreshes Sender) (handle : Uuid) (now : Instant) (fresh : Sender)
      → channel_of operations handle ≡ none
      → (join_or_start Sender operations handle now fresh).1
        ≡ Join.run (record { handle = handle; outcome = fresh })
  unfolding join_or_start
  free-join_or_start operations handle now fresh e = ground arith

  -- In every state that joins, sent outcomes and removals lead to, no account has two running
  -- refreshes, and a caller starts a new one exactly if none is running on its account; a refresh
  -- runs until its runner has sent the outcome and removed it.
  pub Reach-Alone :
      (s : State) (handle : Uuid) (now : Instant) (fresh : Sender)
      → Reach s
      → Alone s.running
        × (((join_or_start Sender s.operations handle now fresh).1
              ≡ Join.run (record { handle = handle; outcome = fresh }))
            ↔ ((o : Operation Sender) → In o s.running → o.handle ≢ handle))
  Reach-Alone s handle now fresh r =
      let i = Reach-Sound r in
      (
        i.alone,
        (
          λ e. apart_from s handle (join_or_start-run s.operations handle now fresh _ e).0 i,
          λ apart. elim (Option-cases (channel_of s.operations handle)) [
            | inl free ↦ free-join_or_start s.operations handle now fresh free
            | inr (channel, held) ↦ elim (apart _ (i.runs handle channel held) refl) [ ]
          ],
        ),
      )

  -- In every state that joins, sent outcomes and removals lead to, the channel that a caller waits
  -- on is that of a running refresh, or an outcome was sent on it.
  pub Reach-answered :
      (s : State) (channel : Sender)
      → Reach s
      → In channel s.waiting
      → ((o : Operation Sender) × In o s.running × (o.outcome ≡ channel)) ⊎ In channel s.sent
  Reach-answered s channel r m = (Reach-Sound r).answered channel m
