-- ===== src/Tenant/Threads.antt =====
-- `insert` and `delete` of crates/skeg-rigging-skeg/src/tenant.rs from several threads. Each changes
-- the index and the sidecar under one lock, drops it, and takes another one to send its event: what
-- other threads do may come in between.
use skeg_rigging.Base.{
  ◌≡◌, Bool, true, false, not, List, [], ◌∷◌, ◌++◌, Result, ok, err, length, ◌==◌, as_u32,
  if◌then◌else◌,
}
use skeg_rigging.Base.Keyed
use skeg_rigging.Ids.{RecordId}
use skeg_rigging.Error.{IoError, TenantError, dim_mismatch}
use skeg_rigging.Event.{Event, EventFilter, record_inserted, record_deleted}
use skeg_rigging.Event.Channel.{Channels}
use skeg_rigging.Write.{NewRecord}
use skeg_rigging.Tenant
use skeg_rigging.Tenant.{Tenant, entry, denied, with_records, emit}
use skeg_rigging.Tenant.Engine.{Index}
use skeg_rigging.Tenant.Sidecar.{entry_key}

pub data Call (F : Type 0) : Type 0 where
  insert : NewRecord F → Call F
  delete : RecordId → Call F

pub data Answer : Type 0 where
  inserted : Result TenantError (Unit {0}) → Answer
  deleted : Result TenantError Bool → Answer

abbrev pub event_of : Bool → RecordId → List Event
event_of true id = record_deleted id ∷ []
event_of false id = []

-- The sending of events, one after another.
abbrev pub emit_all : {I : Type 0} → List Event → Tenant I → Channels → Tenant I × Channels
emit_all [] t cs = (t, cs)
emit_all (event ∷ events) t cs = let (t', cs') = emit event t cs in emit_all events t' cs'

module _ {I F : Type 0} ⦃e : Index I F⦄ where
  abbrev pub store_locked :
      Result IoError (Unit {0}) → NewRecord F → Tenant I → Answer × Tenant I × List Event
  store_locked (err x) rec t = (inserted (err (TenantError.io x)), t, [])
  store_locked (ok _) rec t = (
    inserted (ok tt),
    with_records (Keyed.store entry_key (entry rec) t.sidecar.records) t,
    record_inserted rec.record_id rec.shareable ∷ [],
  )

  -- A call up to the end of its first lock, with the event that it is yet to send.
  unfoldable pub locked : Call F → Tenant I → Answer × Tenant I × List Event
  locked (Call.insert rec) t =
      let requested = as_u32 (length rec.embedding) in
      let (done, index) = e.insert rec.record_id rec.embedding t.index in
      if t.read_only
      then (inserted (err denied), t, [])
      else if requested == t.embedding_dim
      then store_locked done rec (record t { index = index })
      else (inserted (err (dim_mismatch t.embedding_dim requested)), t, [])
  locked (Call.delete id) t =
      let kept = Keyed.remove entry_key id t.sidecar.records in
      let removed = not (length kept == length t.sidecar.records) in
      if t.read_only
      then (deleted (err denied), t, [])
      else (deleted (ok removed), with_records kept t, event_of removed id)

  -- A call that nothing interrupts.
  unfoldable pub whole : Call F → Tenant I → Channels → Answer × Tenant I × Channels
  whole (Call.insert rec) t cs =
      let (result, t', cs') = Tenant.insert rec t cs in (inserted result, t', cs')
  whole (Call.delete id) t cs =
      let (result, t', cs') = Tenant.delete id t cs in (deleted result, t', cs')

  -- Calls one after another, the last one first in the list.
  unfoldable pub sequence : List (Call F) → Tenant I → Channels → List Answer × Tenant I × Channels
  unfolding whole
  sequence [] t cs = ([], t, cs)
  sequence (call ∷ calls) t cs =
      let (answers, t', cs') = sequence calls t cs in
      let (answer, t'', cs'') = whole call t' cs' in (answer ∷ answers, t'', cs'')

  -- Their first locks, one after another.
  unfoldable pub locks : List (Call F) → Tenant I → List Answer × Tenant I
  unfolding locked
  locks [] t = ([], t)
  locks (call ∷ calls) t =
      let (answers, t') = locks calls t in
      let (answer, t'', more) = locked call t' in (answer ∷ answers, t'')

-- What subscribers are to hear of a call, by its answer: an insert that was accepted, and a delete
-- that found its record.
abbrev pub announced : {F : Type 0} → Call F → Answer → List Event
announced (Call.insert rec) (inserted (ok _)) = record_inserted rec.record_id rec.shareable ∷ []
announced (Call.delete id) (deleted (ok true)) = record_deleted id ∷ []
announced _ _ = []

abbrev pub all_announced : {F : Type 0} → List (Call F) → List Answer → List Event
all_announced (call ∷ calls) (answer ∷ answers) =
    all_announced calls answers ++ announced call answer
all_announced _ _ = []

-- The tenant with the channels, the events that threads are yet to send, and the calls that have had
-- their first lock, with their answers, the last one first.
pub record World (I F : Type 0) : Type 0 where
  pub tenant : Tenant I
  pub channels : Channels
  pub pending : List Event
  pub calls : List (Call F)
  pub answers : List Answer

-- One step of some thread: the first lock of a call, the sending of an event that is pending, or a
-- subscription.
pub data Step {I F : Type 0} ⦃e : Index I F⦄ : World I F → World I F → Type 0 where
  lock :
      {w : World I F} (call : Call F) (answer : Answer) (t : Tenant I) (events : List Event)
      → locked call w.tenant ≡ (answer, t, events)
      → Step w (record w {
        tenant = t;
        pending = w.pending ++ events;
        calls = call ∷ w.calls;
        answers = answer ∷ w.answers;
      })
  send :
      {w : World I F} (before after : List Event) (event : Event)
      → w.pending ≡ before ++ event ∷ after
      → Step w (record w {
        tenant = (emit event w.tenant w.channels).0;
        channels = (emit event w.tenant w.channels).1;
        pending = before ++ after;
      })
  subscribe :
      {w : World I F} (filter : EventFilter)
      → Step w (record w {
        tenant = (Tenant.subscribe filter w.tenant w.channels).1;
        channels = (Tenant.subscribe filter w.tenant w.channels).2;
      })

-- Any steps in a row.
pub data Run {I F : Type 0} ⦃e : Index I F⦄ : World I F → World I F → Type 0 where
  start : {w : World I F} → Run w w
  then : {w v u : World I F} → Run w v → Step v u → Run w u

-- Before any call.
abbrev pub idle : {I F : Type 0} → Tenant I → Channels → World I F
idle t cs = record { tenant = t; channels = cs; pending = []; calls = []; answers = [] }
