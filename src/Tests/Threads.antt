-- ===== src/Tests/Threads.antt =====
-- Two threads that write through one tenant, whose events are sent in the other order than their
-- writes were made.
use mathlib.Core.List.{Perm}
use skeg_rigging.Base.{ℕ, ◌≡◌, refl, arith, true, false, none, some, List, [], ◌∷◌, ◌++◌, ok}
use skeg_rigging.Event.{Event, record_inserted, record_deleted}
use skeg_rigging.Base.Keyed
use skeg_rigging.Event.Channel.{broadcast}
use skeg_rigging.Mock.Replay.{replay}
use skeg_rigging.Tenant
use skeg_rigging.Tenant.{Tenant}
use skeg_rigging.Tenant.Sidecar.{get}
use skeg_rigging.Tenant.Threads.{
  Call, inserted, deleted, locked, sequence, all_announced, World, lock, send, Run, start, then,
  idle,
}
use skeg_rigging.Tenant.Heard.{IsHeard}
use skeg_rigging.Tenant.Interleaved.{run-sequence}
use skeg_rigging.Tests.Tenants.{two_channels}
use skeg_rigging.Tests.Stores.{Vector, Index-list, store, fresh}

-- The record 2 is inserted, and deleted before its event is sent.
abbrev calls : List (Call ℕ)
calls = Call.delete 2 ∷ Call.insert fresh ∷ []

abbrev first_events : List Event
first_events = record_inserted 2 false ∷ []

abbrev after_insert : World (List Vector) ℕ
after_insert = record (idle store two_channels) {
  tenant = (locked (Call.insert fresh) store).1;
  pending = first_events;
  calls = Call.insert fresh ∷ [];
  answers = inserted (ok tt) ∷ [];
}

abbrev after_delete : World (List Vector) ℕ
after_delete = record after_insert {
  tenant = (locked {F = ℕ} (Call.delete 2) after_insert.tenant).1;
  pending = record_inserted 2 false ∷ record_deleted 2 ∷ [];
  calls = calls;
  answers = deleted (ok true) ∷ inserted (ok tt) ∷ [];
}

abbrev sending : World (List Vector) ℕ → Event → List Event → World (List Vector) ℕ
sending w event rest = record w {
  tenant = (Tenant.emit event w.tenant w.channels).0;
  channels = (Tenant.emit event w.tenant w.channels).1;
  pending = rest;
}

abbrev half_sent : World (List Vector) ℕ
half_sent = sending after_delete (record_deleted 2) first_events

abbrev last : World (List Vector) ℕ
last = sending half_sent (record_inserted 2 false) []

run : Run (idle {F = ℕ} store two_channels) last
unfolding locked Keyed.store
run =
    then
      (then
        (then (then start (lock (Call.insert fresh) _ _ _ refl)) (lock (Call.delete 2) _ _ _ refl))
        (send first_events [] (record_deleted 2) refl))
      (send [] [] (record_inserted 2 false) refl)

store-IsHeard : IsHeard 0 store.subscribers two_channels
store-IsHeard = record {
  apart = (refl, tt);
  bound = (omega arith, tt);
  member = refl;
  live = refl;
  opened = omega arith;
}

run-sequence_example :
    let (answers, t', cs') = sequence calls store two_channels in
    (last.answers ≡ answers)
    × (last.tenant.index ≡ t'.index)
    × (last.tenant.sidecar ≡ t'.sidecar)
    × (arrived : List Event) × ((last.channels.channel 0).queue ≡ [] ++ arrived)
    × Perm arrived (all_announced calls answers)
run-sequence_example = run-sequence 0 store two_channels last store-IsHeard run refl

-- Who applies these events takes the record 2 for one that is there, which it is not.
misled :
    (replay (last.channels.channel 0).queue (λ id. none) 2 ≡ some false)
    × (get 2 last.tenant.sidecar ≡ none)
unfolding locked Keyed.store get Tenant.emit broadcast
misled = (refl, refl)
