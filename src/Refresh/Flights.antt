-- ===== src/Refresh/Flights.antt =====
-- The operations in flight in src/pool/refresh.rs. A sender of tokio's `watch` channel is a parameter.
mod Single
use jaynshare.Prelude.{Option, none, some, map_some, nat_eq}
use jaynshare.Time.{Instant}
use jaynshare.External.{Uuid}
use jaynshare.HashMap
use jaynshare.HashMap.{HashMap}
use jaynshare.Refresh.{Outcome}

module _ (Sender : Type 0) where
  pub record InFlight : Type 0 where
    pub started_at : Instant
    pub outcome : Sender

  pub record Operation : Type 0 where
    pub handle : Uuid
    pub outcome : Sender

  pub data Join : Type 0 where
    wait : Sender → Join
    run : Operation → Join

  abbrev pub Refreshes : Type 0
  Refreshes = HashMap Uuid InFlight

  -- `fresh` is the sender of a new channel.
  unfoldable pub join_or_start : Refreshes → Uuid → Instant → Sender → Refreshes × Join
  join_or_start operations handle now fresh = elim (HashMap.get operations handle) [
    | some operation ↦ (operations, wait operation.outcome)
    | none ↦ (
      HashMap.insert operations handle (record { started_at = now; outcome = fresh }),
      run (record { handle = handle; outcome = fresh }),
    )
  ]

  unfoldable pub in_flight : Refreshes → Uuid → Option Instant
  in_flight operations handle =
      map_some (λ (o : InFlight). o.started_at) (HashMap.get operations handle)

  -- `finish` takes two steps, and another caller may come between them: the outcome is sent, and then
  -- the operation is removed under the lock.
  unfoldable pub send : Operation → Outcome → Sender × Outcome
  send operation outcome = (operation.outcome, outcome)

  unfoldable pub remove : Refreshes → Operation → Refreshes
  remove operations operation = HashMap.remove operations operation.handle
