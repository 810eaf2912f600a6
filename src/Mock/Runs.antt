-- ===== src/Mock/Runs.antt =====
-- Sequences of calls on a `MockTenant` (crates/skeg-rigging/src/mock.rs), with what they announce.
use skeg_rigging.Base.{
  Bool, true, false, List, [], ◌∷◌, ◌++◌, Result, ok, err, Outcome, returned, panicked, filter,
}
use skeg_rigging.Ids.{RecordId}
use skeg_rigging.Error.{QuotaError}
use skeg_rigging.Quota.{Quota}
use skeg_rigging.Event.{Event, EventFilter, record_inserted, record_deleted}
use skeg_rigging.Event.Channel.{Channels}
use skeg_rigging.Event.Stream.{EventStream}
use skeg_rigging.Mock
use skeg_rigging.Mock.{key, MockRecord, MockTenant, emit, write, announce, check_quota, finish}

-- A call by the owner of the tenant.
pub data Call (F : Type 0) : Type 0 where
  insert : MockRecord F → Call F
  delete : RecordId → Call F
  set_quota : Quota → Call F
  subscribe : EventFilter → Call F

-- A tenant with the channels, and what a call announced to its caller: an accepted insert and an
-- effective delete.
pub record State (F : Type 0) : Type 0 where
  pub tenant : MockTenant F
  pub channels : Channels
  pub log : List Event

module _ {F : Type 0} where
  -- A call that panics changes nothing.
  abbrev pub inserted :
      MockRecord F
      → State F
      → Outcome (Result QuotaError (Unit {0}) × MockTenant F × Channels)
      → State F
  inserted rec s panicked = s
  inserted rec s (returned (ok _, t, cs)) = record {
    tenant = t;
    channels = cs;
    log = s.log ++ record_inserted rec.record_id rec.shareable ∷ [];
  }
  inserted rec s (returned (err _, t, cs)) = record { tenant = t; channels = cs; log = s.log }

  abbrev pub deleted : RecordId → State F → Bool × MockTenant F × Channels → State F
  deleted id s (true, t, cs) = record {
    tenant = t;
    channels = cs;
    log = s.log ++ record_deleted id ∷ [];
  }
  deleted id s (false, t, cs) = record { tenant = t; channels = cs; log = s.log }

  unfoldable pub step : State F → Call F → State F
  step s (Call.insert rec) = inserted rec s (Mock.insert rec s.tenant s.channels)
  step s (Call.delete id) = deleted id s (Mock.delete id s.tenant s.channels)
  step s (Call.set_quota quota) =
      let (_, t) = Mock.set_quota quota s.tenant in record s { tenant = t }
  step s (Call.subscribe filter) =
      let (_, t, cs) = Mock.subscribe filter s.tenant s.channels in
      record s { tenant = t; channels = cs }

  unfoldable pub run : State F → List (Call F) → State F
  unfolding step
  run s [] = s
  run s (call ∷ calls) = run (step s call) calls

-- The stream of a new subscription, and the state after it.
abbrev pub subscribed : {F : Type 0} → EventFilter → MockTenant F → Channels → EventStream × State F
subscribed f t cs =
    let (stream, t', cs') = Mock.subscribe f t cs in
    (stream, record { tenant = t'; channels = cs'; log = [] })
