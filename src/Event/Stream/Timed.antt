-- ===== src/Event/Stream/Timed.antt =====
-- `EventStream::recv_timeout` of crates/skeg-rigging/src/events.rs. Time is a number of ticks.
use skeg_rigging.Base.{
  ℕ, ◌+◌, ◌-◌, ◌≤◌, ◌≡◌, true, List, [], ◌∷◌, Option, none, some, arith, max, if_elim, All, find,
  leb, ltb, if◌then◌else◌, Outcome, returned, panicked, refl, ◌<◌,
}
use skeg_rigging.Event.{Event, EventFilter, accepts}

-- One event that the environment sends, and how long the loop takes from its receipt to the next
-- reading of the clock.
pub record Arrival : Type 0 where
  pub at : ℕ
  pub event : Event
  pub lag : ℕ

-- How the call ends, and at what time.
pub data Ended : Type 0 where
  got : Event → ℕ → Ended
  timeout disconnected : ℕ → Ended

-- `deadline.saturating_duration_since(now)` is the truncated difference. `closes` is the time at
-- which the sender is dropped, if it is; a message that is there when the wait starts is received
-- whatever remains.
wait_closed : ℕ → Option ℕ → ℕ → Ended
wait_closed until none now = timeout until
wait_closed until (some t) now = if leb t until then disconnected (max now t) else timeout until

recv_until : EventFilter → ℕ → Option ℕ → ℕ → List Arrival → Ended
recv_until f deadline closes now [] = wait_closed (now + (deadline - now)) closes now
recv_until f deadline closes now (a ∷ arrivals) =
    let rest = recv_until f deadline closes (max now a.at + a.lag) arrivals in
    if leb a.at (now + (deadline - now))
    then (if accepts f a.event then got a.event (max now a.at) else rest)
    else timeout (now + (deadline - now))

-- `Instant::now() + timeout` panics past the latest `Instant` that the platform has.
unfoldable pub recv_timeout : EventFilter → ℕ → ℕ → Option ℕ → ℕ → List Arrival → Outcome Ended
unfolding recv_until wait_closed
recv_timeout f latest limit closes now arrivals =
    if ltb latest (now + limit)
    then panicked
    else returned (recv_until f (now + limit) closes now arrivals)

abbrev pub ended_at : Ended → ℕ
ended_at (got ev t) = t
ended_at (timeout t) = t
ended_at (disconnected t) = t

abbrev pub lags : List Arrival → ℕ
lags [] = 0
lags (a ∷ arrivals) = a.lag + lags arrivals

recv_until-le :
    (f : EventFilter) (deadline : ℕ) (closes : Option ℕ) (now : ℕ) (arrivals : List Arrival)
    → ended_at (recv_until f deadline closes now arrivals) ≤ max now deadline + lags arrivals
unfolding recv_until wait_closed
recv_until-le f deadline none now [] = ground arith
recv_until-le f deadline (some t) now [] = ground arith
recv_until-le f deadline closes now (a ∷ arrivals) =
    ground (arith, recv_until-le f deadline closes (max now a.at + a.lag) arrivals)

recv_until-find :
    (f : EventFilter) (deadline : ℕ) (closes : Option ℕ) (now : ℕ) (arrivals : List Arrival)
    (a : Arrival)
    → All (λ b. b.at ≤ deadline) arrivals
    → find (λ b. accepts f b.event) arrivals ≡ some a
    → recv_until f deadline closes now arrivals
      ≡ got a.event (ended_at (recv_until f deadline closes now arrivals))
unfolding recv_until
recv_until-find f deadline closes now [] a h found = cc
recv_until-find f deadline closes now (b ∷ arrivals) a h found =
    ground (arith, recv_until-find f deadline closes (max now b.at + b.lag) arrivals a h.1)

-- Where the deadline is a time of the platform: the first event that passes the filter is what the
-- call returns, if it and what comes before and after it are there by the deadline, and it does so
-- by the deadline but for the time that the loop itself takes.
pub recv_timeout-find :
    (f : EventFilter) (latest limit : ℕ) (closes : Option ℕ) (now : ℕ) (arrivals : List Arrival)
    (a : Arrival)
    → now + limit ≤ latest
    → All (λ b. b.at ≤ now + limit) arrivals
    → find (λ b. accepts f b.event) arrivals ≡ some a
    → (t : ℕ) × (recv_timeout f latest limit closes now arrivals ≡ returned (got a.event t))
      × (t ≤ now + limit + lags arrivals)
unfolding recv_timeout
recv_timeout-find f latest limit closes now arrivals a small h found = (
  ended_at (recv_until f (now + limit) closes now arrivals),
  ground (arith, recv_until-find f (now + limit) closes now arrivals a h found),
  omega (arith, recv_until-le f (now + limit) closes now arrivals),
)

-- What the loop answers is sound: an event passes the filter, a timeout is not early, and who is
-- told that the sender is gone is told so after it went.
abbrev pub Sound : EventFilter → ℕ → Option ℕ → Ended → Type 0
Sound f deadline closes (got ev t) = accepts f ev ≡ true
Sound f deadline closes (timeout t) = deadline ≤ t
Sound f deadline closes (disconnected t) = (c : ℕ) × (closes ≡ some c) × (c ≤ t)

recv_until-Sound :
    (f : EventFilter) (deadline : ℕ) (closes : Option ℕ) (now : ℕ) (arrivals : List Arrival)
    → Sound f deadline closes (recv_until f deadline closes now arrivals)
unfolding recv_until wait_closed
recv_until-Sound f deadline none now [] = omega arith
recv_until-Sound f deadline (some t) now [] =
    if_elim (Sound f deadline (some t)) (leb t (now + (deadline - now)))
      (λ _. (t, refl, omega arith)) (λ _. omega arith)
recv_until-Sound f deadline closes now (b ∷ arrivals) =
    if_elim (Sound f deadline closes) (leb b.at (now + (deadline - now)))
      (λ _.
        if_elim (Sound f deadline closes) (accepts f b.event) (λ passed. passed)
          (λ _. recv_until-Sound f deadline closes (max now b.at + b.lag) arrivals))
      (λ _. omega arith)

-- What a call does with a deadline: it panics for one that is past the platform's latest time;
-- otherwise it ends by it, but for the time that the loop takes, with a sound answer.
abbrev pub Timely : EventFilter → ℕ → ℕ → Option ℕ → ℕ → Outcome Ended → Type 0
Timely f latest deadline closes slack panicked = latest < deadline
Timely f latest deadline closes slack (returned e) =
    (deadline ≤ latest) × (ended_at e ≤ deadline + slack) × Sound f deadline closes e

-- A call panics only where its deadline is past the platform's latest time. Otherwise, however long
-- a burst of rejected events is, it ends by its deadline, but for the time that the loop itself
-- takes between two waits; an event that it returns passes the filter; and it gives up before the
-- deadline only for a sender that is gone by then.
pub recv_timeout-Timely :
    (f : EventFilter) (latest limit : ℕ) (closes : Option ℕ) (now : ℕ) (arrivals : List Arrival)
    → Timely f latest
        (now + limit)
        closes
        (lags arrivals)
        (recv_timeout f latest limit closes now arrivals)
unfolding recv_timeout
recv_timeout-Timely f latest limit closes now arrivals =
    if_elim (Timely f latest (now + limit) closes (lags arrivals)) (ltb latest (now + limit))
      (λ past. ground (arith, past))
      (λ by. (
        ground (arith, by),
        omega (arith, recv_until-le f (now + limit) closes now arrivals),
        recv_until-Sound f (now + limit) closes now arrivals,
      ))
