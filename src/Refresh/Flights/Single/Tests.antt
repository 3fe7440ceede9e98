-- ===== src/Refresh/Flights/Single/Tests.antt =====
-- Callers of `ensure_fresh` on two accounts.
use jaynshare.Prelude.{ℕ, ◌≡◌, ◌≢◌, ◌⊎◌, ◌↔◌, inl, inr, [], ◌∷◌, In, refl}
use jaynshare.Time.{seconds}
use jaynshare.HashMap
use jaynshare.Refresh.{ready}
use jaynshare.Refresh.Flights.{Operation, Join, join_or_start, send, remove}
use jaynshare.Refresh.Flights.Single.{
  Picked, Alone, State, Step, Reach, Reach-Alone, Reach-answered,
}

abbrev first : Operation ℕ
first = record { handle = 1; outcome = 10 }

abbrev second : Operation ℕ
second = record { handle = 2; outcome = 20 }

-- Account 1 is being refreshed and one more caller waits for it, then account 2 is too.
abbrev busy : State ℕ
busy = record {
  operations =
      (1, record { started_at = seconds 5; outcome = 10 })
      ∷ (2, record { started_at = seconds 7; outcome = 20 })
      ∷ [];
  running = second ∷ first ∷ [];
  sent = [];
  waiting = 20 ∷ 10 ∷ 10 ∷ [];
}

-- The refresh of account 1 has finished.
abbrev half_done : State ℕ
half_done = record {
  operations = (2, record { started_at = seconds 7; outcome = 20 }) ∷ [];
  running = second ∷ [];
  sent = 10 ∷ [];
  waiting = 20 ∷ 10 ∷ 10 ∷ [];
}

half_done_reached : Reach ℕ half_done
unfolding join_or_start send remove HashMap.get HashMap.insert HashMap.remove
half_done_reached =
    Reach.next
      (Reach.next
        (Reach.next
          (Reach.next (Reach.next Reach.begin (Step.starts _ 1 (seconds 5) 10 first refl))
            (Step.joins _ 1 (seconds 6) 11 10 refl))
          (Step.starts _ 2 (seconds 7) 20 second refl))
        (Step.sends busy first ready (inr (inl refl))))
      (Step.removes (record busy { sent = 10 ∷ [] }) first (second ∷ []) (Picked.there Picked.here)
        (inl refl))

Reach-Alone_example :
    Alone ℕ (second ∷ [])
    × (((join_or_start ℕ half_done.operations 1 (seconds 9) 30).1
          ≡ Join.run (record { handle = 1; outcome = 30 }))
        ↔ ((o : Operation ℕ) → In o (second ∷ []) → o.handle ≢ 1))
Reach-Alone_example = Reach-Alone ℕ half_done 1 (seconds 9) 30 half_done_reached

Reach-answered_example :
    ((o : Operation ℕ) × In o (second ∷ []) × (o.outcome ≡ 10)) ⊎ In {A = ℕ} 10 (10 ∷ [])
Reach-answered_example = Reach-answered ℕ half_done 10 half_done_reached (inr (inl refl))
