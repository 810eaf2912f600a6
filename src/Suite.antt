-- ===== src/Suite.antt =====
-- The unit tests that stand in mock.rs, asyncs.rs and ids.rs of crates/skeg-rigging/src, run on the
-- definitions: a test returns, or panics where an assertion or an `unwrap` does. They are over any
-- `f32`, since none looks at a similarity.
pub mod Reads
pub mod Quotas
pub mod Subscribers
pub mod Bridges
pub mod Texts
pub mod Concurrent
use Prim.Native.String.{String}
use skeg_rigging.Base.{
  ℕ, ◌^◌, ◌≡◌, Bool, true, false, ◌&&◌, none, List, [], ◌∷◌, Result, ok, err, Outcome, returned,
  panicked, map, ◌==◌, ltb, Option, some,
}
use skeg_rigging.Ids.{RecordId, TenantId, anonymous, bytes_eq}
use skeg_rigging.Text.{Str, codes}
use skeg_rigging.Error.{QuotaError, exceeded}
use skeg_rigging.Quota.{Quota}
use skeg_rigging.Event.{Event, EventFilter}
use skeg_rigging.Event.Channel.{Channels}
use skeg_rigging.Event.Stream.{EventStream, try_recv}
use skeg_rigging.Event.Stream.Timed
use skeg_rigging.Event.Stream.Timed.{Arrival, Ended, got, timeout, disconnected}
use skeg_rigging.Float.{Float}
use skeg_rigging.Mock
use skeg_rigging.Mock.{MockRecord, MockTenant}

infixl 5 ◌>>=◌
abbrev pub ◌>>=◌ : {A B : Type 0} → Outcome A → (A → Outcome B) → Outcome B
◌>>=◌ (returned a) next = next a
◌>>=◌ panicked next = panicked

-- A latest time, in milliseconds, that no test comes near.
abbrev latest : ℕ
latest = 2 ^ 63

-- `assert!`
abbrev pub assert : Bool → Outcome (Unit {0})
assert true = returned tt
assert false = panicked

-- What passes an assertion.
abbrev pub passed : Outcome (Unit {0})
passed = returned tt

abbrev pub unwrap : {E A : Type 0} → Result E A → Outcome A
unwrap (ok a) = returned a
unwrap (err _) = panicked

abbrev pub unwrap_err : {E A : Type 0} → Result E A → Outcome E
unwrap_err (ok _) = panicked
unwrap_err (err e) = returned e

-- A tenant with the channels.
pub record World (F : Type 0) : Type 0 where
  pub tenant : MockTenant F
  pub channels : Channels

-- Before any channel is made.
abbrev pub no_channels : Channels
no_channels = record {
  next = 0;
  channel = λ i. record { queue = []; receiver = false; sender = false };
}

module _ {F : Type 0} ⦃f : Float F⦄ where
  abbrev pub fresh : TenantId → ℕ → World F
  fresh id dim = record { tenant = Mock.new id dim; channels = no_channels }

  -- A vector of the components 0.0 and 1.0, where `true` is 1.0.
  abbrev pub component : Bool → F
  component true = f.one
  component false = f.zero

  abbrev pub vector : List Bool → List F
  vector bits = map component bits

  abbrev pub rec : RecordId → List Bool → Bool → List Str → Str → MockRecord F
  rec id bits shareable tags payload = record {
    record_id = id;
    embedding = vector bits;
    shareable = shareable;
    tags = tags;
    payload = payload;
  }

abbrev queued : Event → Arrival
queued event = record { at = 0; event = event; lag = 0 }

module _ {F : Type 0} where
  abbrev pub accepted : Result QuotaError (Unit {0}) × MockTenant F × Channels → Outcome (World F)
  accepted (ok _, t, cs) = returned (record { tenant = t; channels = cs })
  accepted (err _, t, cs) = panicked

  abbrev pub rejection : Result QuotaError (Unit {0}) × MockTenant F × Channels → Outcome QuotaError
  rejection (ok _, t, cs) = panicked
  rejection (err e, t, cs) = returned e

  -- `t.insert(…).unwrap()` and `t.insert(…).unwrap_err()`
  abbrev pub insert : MockRecord F → World F → Outcome (World F)
  insert r w = do done ← Mock.insert r w.tenant w.channels; accepted done

  abbrev pub insert_err : MockRecord F → World F → Outcome QuotaError
  insert_err r w = do done ← Mock.insert r w.tenant w.channels; rejection done

  -- The records one after another, as a loop writes them.
  abbrev pub insert_each : List (MockRecord F) → World F → Outcome (World F)
  insert_each [] w = returned w
  insert_each (r ∷ rest) w = do w' ← insert r w; insert_each rest w'

  abbrev pub delete : RecordId → World F → Bool × World F
  delete id w =
      let (removed, t, cs) = Mock.delete id w.tenant w.channels in
      (removed, record { tenant = t; channels = cs })

  -- `t.set_quota(…).unwrap()`
  abbrev pub set_quota : Quota → World F → Outcome (World F)
  set_quota quota w =
      let (result, t) = Mock.set_quota quota w.tenant in
      do _ ← unwrap result; returned (record w { tenant = t })

  abbrev pub subscribe : EventFilter → World F → EventStream × World F
  subscribe filter w =
      let (stream, t, cs) = Mock.subscribe filter w.tenant w.channels in
      (stream, record { tenant = t; channels = cs })

  -- `recv_timeout` on what is queued; nothing arrives while a test waits.
  abbrev pub recv_timeout : ℕ → EventStream → World F → Outcome Ended × World F
  recv_timeout limit s w =
      let arrivals = map queued (w.channels.channel s.rx).queue in
      (
        Timed.recv_timeout s.filter latest limit none 0 arrivals,
        record w { channels = (try_recv s w.channels).1 },
      )

-- `.expect("event should arrive")`, and `.is_err()`
abbrev pub arrived : Outcome Ended → Outcome Event
arrived (returned (got event at)) = returned event
arrived _ = panicked

abbrev pub is_err : Outcome Ended → Outcome Bool
is_err panicked = panicked
is_err (returned (got event at)) = returned false
is_err (returned _) = returned true

-- `matches!` on an event or an error.
abbrev pub is_insert : RecordId → Event → Bool
is_insert id (Event.record_inserted i shareable) = i == id
is_insert id _ = false

abbrev pub is_shareable_insert : RecordId → Event → Bool
is_shareable_insert id (Event.record_inserted i shareable) = i == id && shareable
is_shareable_insert id _ = false

abbrev pub is_delete : RecordId → Event → Bool
is_delete id (Event.record_deleted i) = i == id
is_delete id _ = false

abbrev pub is_any_delete : Event → Bool
is_any_delete (Event.record_deleted i) = true
is_any_delete _ = false

abbrev pub exceeds : String → QuotaError → Bool
exceeds name (exceeded dimension cap attempted) = bytes_eq (codes dimension) (codes name)
exceeds name (QuotaError.io _) = false

abbrev pub exceeds_by : String → ℕ → ℕ → QuotaError → Bool
exceeds_by name cap attempted (exceeded dimension limit tried) =
    bytes_eq (codes dimension) (codes name) && limit == cap && tried == attempted
exceeds_by name cap attempted (QuotaError.io _) = false

abbrev pub is_exceeded : QuotaError → Bool
is_exceeded (exceeded dimension cap attempted) = true
is_exceeded (QuotaError.io _) = false
