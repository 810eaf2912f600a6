-- ===== src/Event/Stream.antt =====
-- `EventStream` of crates/skeg-rigging/src/events.rs: the loops that skip what the filter rejects.
use skeg_rigging.Base.{
  ℕ, Bool, true, false, List, [], ◌∷◌, Option, none, some, Result, ok, err, if◌then◌else◌,
}
use skeg_rigging.Event.{Event, EventFilter, accepts}
use skeg_rigging.Event.Channel.{Channel, Channels, set_channel}
pub mod Drain
pub mod Timed

pub record EventStream : Type 0 where
  pub rx : ℕ
  pub filter : EventFilter

-- What a receive ends with. `empty` is `TryRecvError::Empty` and, for the blocking `recv`, a wait
-- that no queued event ends.
pub data Received : Type 0 where
  got : Event → Received
  empty disconnected : Received

-- An empty queue is `Disconnected` when the sender is gone.
abbrev pub none_left : Bool → Received
none_left true = empty
none_left false = disconnected

-- The loop of `try_recv` and of `recv` over the queued events: the first that passes, and the rest.
pub receive : EventFilter → Bool → List Event → Received × List Event
receive f sender [] = (none_left sender, [])
receive f sender (ev ∷ queue) =
    let skip = receive f sender queue in if accepts f ev then (got ev, queue) else skip

unfoldable pub try_recv : EventStream → Channels → Received × Channels
unfolding receive
try_recv s cs =
    let c = cs.channel s.rx in
    let (result, queue) = receive s.filter c.sender c.queue in
    (result, set_channel cs s.rx (record c { queue = queue }))

pub data RecvError : Type 0 where
  recv_error : RecvError

-- A blocking call either ends, or waits with every queued event skipped.
pub data Waited {ℓ} (A : Type ℓ) : Type ℓ where
  finished : A → Waited A
  waits : Waited A

abbrev recv_result : Received → Waited (Result RecvError Event)
recv_result (got ev) = finished (ok ev)
recv_result empty = waits
recv_result disconnected = finished (err recv_error)

unfoldable pub recv : EventStream → Channels → Waited (Result RecvError Event) × Channels
recv s cs = let (result, cs') = try_recv s cs in (recv_result result, cs')

-- `Result::ok`
abbrev pub to_option {ℓ} : {E : Type 0} {A : Type ℓ} → Result E A → Option A
to_option (ok a) = some a
to_option (err e) = none

abbrev next_result : Waited (Result RecvError Event) → Waited (Option Event)
next_result (finished r) = finished (to_option r)
next_result waits = waits

-- `Iterator::next`
unfoldable pub next : EventStream → Channels → Waited (Option Event) × Channels
next s cs = let (result, cs') = recv s cs in (next_result result, cs')
