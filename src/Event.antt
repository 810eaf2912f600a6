-- ===== src/Event.antt =====
-- crates/skeg-rigging/src/events.rs: the events of a tenant, their kinds and the subscription
-- filter. `Channel` has the `std::sync::mpsc` channels, `Stream` the receiver end and `Timed` its
-- form with a deadline; the modules below those prove what a subscriber sees.
pub mod Channel
pub mod Stream
use skeg_rigging.Base.{ℕ, Bool, true, false}
use skeg_rigging.Ids.{RecordId, TenantId}

-- `built_at` is the wall-clock time of the rebuild, as a number.
pub data Event : Type 0 where
  record_inserted : RecordId → Bool → Event
  record_deleted : RecordId → Event
  saga_rebuilt : TenantId → ℕ → Event
  hansa_member_joined : TenantId → Event
  hansa_member_left : TenantId → Event

pub data EventKind : Type 0 where
  record_inserted record_deleted saga_rebuilt hansa_member_joined hansa_member_left : EventKind

unfoldable pub kind : Event → EventKind
kind (Event.record_inserted _ _) = EventKind.record_inserted
kind (Event.record_deleted _) = EventKind.record_deleted
kind (Event.saga_rebuilt _ _) = EventKind.saga_rebuilt
kind (Event.hansa_member_joined _) = EventKind.hansa_member_joined
kind (Event.hansa_member_left _) = EventKind.hansa_member_left

pub record EventFilter : Type 0 where
  pub record_inserted : Bool
  pub record_deleted : Bool
  pub saga_rebuilt : Bool
  pub hansa_member_joined : Bool
  pub hansa_member_left : Bool

-- `EventFilter::ALL`, also the default.
abbrev pub all : EventFilter
all = record {
  record_inserted = true;
  record_deleted = true;
  saga_rebuilt = true;
  hansa_member_joined = true;
  hansa_member_left = true;
}

-- `EventFilter::NONE`.
abbrev pub nothing : EventFilter
nothing = record {
  record_inserted = false;
  record_deleted = false;
  saga_rebuilt = false;
  hansa_member_joined = false;
  hansa_member_left = false;
}

allows : EventFilter → EventKind → Bool
allows f EventKind.record_inserted = f.record_inserted
allows f EventKind.record_deleted = f.record_deleted
allows f EventKind.saga_rebuilt = f.saga_rebuilt
allows f EventKind.hansa_member_joined = f.hansa_member_joined
allows f EventKind.hansa_member_left = f.hansa_member_left

unfoldable pub accepts : EventFilter → Event → Bool
unfolding kind allows
accepts f event = allows f (kind event)
