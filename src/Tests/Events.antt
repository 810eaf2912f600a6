-- ===== src/Tests/Events.antt =====
-- Channels with queued events, and a stream over one of them.
use skeg_rigging.Base.{
  ℕ, returned, panicked, ◌+◌, ◌≤◌, ◌≡◌, refl, ◌==◌, not, Bool, true, none, List, [], ◌∷◌, filter,
  arith,
}
use skeg_rigging.Event.{Event, nothing, accepts, record_inserted, record_deleted}
use skeg_rigging.Event.Channel.{Channel, Channels}
use skeg_rigging.Event.Channel.Broadcast.{is_live}
use skeg_rigging.Event.Stream.{EventStream, try_recv}
use skeg_rigging.Event.Stream.Drain.{
  pending, first_of_pending, tail, collect, try_recv-pending, collect-pending,
}
use skeg_rigging.Event.Stream.Timed.{
  Arrival, got, lags, recv_timeout, Timely, recv_timeout-find, recv_timeout-Timely,
}

abbrev channel_of : Bool → Channel
channel_of receiver = record {
  queue = record_deleted 1 ∷ record_inserted 2 true ∷ record_deleted 3 ∷ [];
  receiver = receiver;
  sender = true;
}

-- The receiver of the channel 1 is gone.
abbrev channels : Channels
channels = record { next = 3; channel = λ i. channel_of (not (i == 1)) }

abbrev deletes : EventStream
deletes = record { rx = 0; filter = record nothing { record_deleted = true } }

abbrev news : Event
news = record_deleted 9

kept_senders : filter (is_live channels) (0 ∷ 1 ∷ []) ≡ 0 ∷ []
kept_senders = refl

try_recv-pending_example :
    ((try_recv deletes channels).0
      ≡ first_of_pending (channels.channel 0).sender (pending deletes channels))
    × (pending deletes (try_recv deletes channels).1 ≡ tail (pending deletes channels))
try_recv-pending_example = try_recv-pending deletes channels

collect-pending_example : collect 3 deletes channels ≡ pending deletes channels
unfolding accepts
collect-pending_example = collect-pending 3 deletes channels (omega arith)

two_pending : pending deletes channels ≡ record_deleted 1 ∷ record_deleted 3 ∷ []
unfolding accepts
two_pending = refl

-- A rejected event at the time 2, and one that passes at 5.
abbrev arrivals : List Arrival
arrivals =
    record { at = 2; event = record_inserted 1 true; lag = 1 }
    ∷ record { at = 5; event = record_deleted 1; lag = 1 }
    ∷ []

recv_timeout-find_example :
    (t : ℕ) × (recv_timeout deletes.filter 100 10 none 1 arrivals
      ≡ returned (got (record_deleted 1) t))
    × (t ≤ 1 + 10 + lags arrivals)
unfolding accepts
recv_timeout-find_example =
    recv_timeout-find deletes.filter 100 10 none 1 arrivals
      (record { at = 5; event = record_deleted 1; lag = 1 }) (omega arith)
      (omega arith, (omega arith, tt)) refl

recv_timeout-Timely_example :
    Timely deletes.filter 100 4 none
      (lags arrivals)
      (recv_timeout deletes.filter 100 3 none 1 arrivals)
recv_timeout-Timely_example = recv_timeout-Timely deletes.filter 100 3 none 1 arrivals

-- The longest timeouts panic, whatever is queued.
past_latest : recv_timeout deletes.filter 100 100 none 1 arrivals ≡ panicked
unfolding recv_timeout
past_latest = refl
