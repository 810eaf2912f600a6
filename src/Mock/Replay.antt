-- ===== src/Mock/Replay.antt =====
-- The ids of a `MockTenant` (crates/skeg-rigging/src/mock.rs) and their flags, as a subscriber that
-- applies the events which it receives knows them.
use skeg_rigging.Base.{
  ℕ, ◌<◌, ◌≡◌, refl, sym, ap, ◌∙◌, Bool, true, false, Bool-cases, inl, inr, Option, none, some,
  List, [], ◌∷◌, ◌++◌, Result, ok, err, returned, filter, length, arith, ◌==◌, ==_iff,
  if◌then◌else◌,
}
use skeg_rigging.Base.Keyed
use skeg_rigging.Ids.{RecordId}
use skeg_rigging.Error.{QuotaError}
use skeg_rigging.Event.{Event, EventFilter, accepts}
use skeg_rigging.Event.Channel.{Channels}
use skeg_rigging.Event.Stream.{EventStream}
use skeg_rigging.Event.Stream.Drain.{pending, collect}
use skeg_rigging.Mock
use skeg_rigging.Mock.{key, MockRecord, MockTenant, emit, write, check_quota, finish}
use skeg_rigging.Mock.Records.{find_record, has, delete-find_record}
use skeg_rigging.Mock.Runs.{Call, State, inserted, deleted, step, run, subscribed}
use skeg_rigging.Mock.Valid.{IsValid, insert-cases}
use skeg_rigging.Mock.Broadcasts.{Follows, step-Follows, subscribed-Follows, subscribed_sees_all}

-- Ids with the flag whether the record is shareable.
abbrev pub Mirror : Type 0
Mirror = RecordId → Option Bool

abbrev pub apply_event : Event → Mirror → Mirror
apply_event (Event.record_inserted id shareable) m asked =
    if id == asked then some shareable else m asked
apply_event (Event.record_deleted id) m asked = if id == asked then none else m asked
apply_event _ m asked = m asked

abbrev pub replay : List Event → Mirror → Mirror
replay [] m = m
replay (event ∷ events) m = replay events (apply_event event m)

replay_push :
    (events : List Event) (event : Event) (m : Mirror)
    → replay (events ++ event ∷ []) m ≡ apply_event event (replay events m)
replay_push [] event m = refl
replay_push (e ∷ events) event m = replay_push events event (apply_event e m)

-- A filter that lets inserts and deletes pass hides nothing that matters.
replay-filter :
    (f : EventFilter) (events : List Event) (m : Mirror)
    → f.record_inserted ≡ true
    → f.record_deleted ≡ true
    → replay (filter (accepts f) events) m ≡ replay events m
unfolding accepts
replay-filter f [] m ins del = refl
replay-filter f (Event.record_inserted id sh ∷ events) m ins del =
    rw ins (replay-filter f events (apply_event (Event.record_inserted id sh) m) ins del)
replay-filter f (Event.record_deleted id ∷ events) m ins del =
    rw del (replay-filter f events (apply_event (Event.record_deleted id) m) ins del)
replay-filter f (Event.saga_rebuilt id at ∷ events) m ins del = elim (Bool-cases f.saga_rebuilt) [
  | inl shown ↦ rw shown (replay-filter f events m ins del)
  | inr hidden ↦ rw hidden (replay-filter f events m ins del)
]
replay-filter f (Event.hansa_member_joined id ∷ events) m ins del =
    elim (Bool-cases f.hansa_member_joined) [
      | inl shown ↦ rw shown (replay-filter f events m ins del)
      | inr hidden ↦ rw hidden (replay-filter f events m ins del)
    ]
replay-filter f (Event.hansa_member_left id ∷ events) m ins del =
    elim (Bool-cases f.hansa_member_left) [
      | inl shown ↦ rw shown (replay-filter f events m ins del)
      | inr hidden ↦ rw hidden (replay-filter f events m ins del)
    ]

module _ {F : Type 0} where
  abbrev flag_of : Option (MockRecord F) → Option Bool
  flag_of none = none
  flag_of (some r) = some r.shareable

  -- The abstract view of a tenant.
  abbrev pub mirror : MockTenant F → Mirror
  mirror t id = flag_of (find_record id t)

  -- The tenant's view is the first one with the announced events applied.
  Mirrored : Mirror → State F → Type 0
  Mirrored m s = (id : RecordId) → mirror s.tenant id ≡ replay s.log m id

  finish-Mirrored :
      (m : Mirror) (checked : Result QuotaError (Unit {0})) (rec : MockRecord F) (s : State F)
      → Mirrored m s
      → Mirrored m (inserted rec s (returned (finish checked rec s.tenant s.channels)))
  unfolding Mirrored finish write emit
  finish-Mirrored m (err e) rec s h id = h id
  finish-Mirrored m (ok _) rec s h id =
      ap flag_of (Keyed.lookup-store key rec s.tenant.records id)
      ∙ ground (
        arith,
        h id,
        ap (λ (v : Mirror). v id)
            (replay_push s.log (Event.record_inserted rec.record_id rec.shareable) m),
      )

  find_record_absent :
      (id : RecordId) (records : List (MockRecord F))
      → Keyed.contains key id records ≡ false
      → Keyed.lookup key id records ≡ none
  find_record_absent id [] h = refl
  find_record_absent id (r ∷ records) h = ground (arith, find_record_absent id records)

  deleted-Mirrored :
      (m : Mirror) (id : RecordId) (s : State F) (out : Bool × MockTenant F × Channels)
      → out.0 ≡ has id s.tenant
      → ((j : RecordId) → find_record j out.1 ≡ (if id == j then none else find_record j s.tenant))
      → Mirrored m s
      → Mirrored m (deleted id s out)
  unfolding Mirrored
  deleted-Mirrored m id s (true, t, cs) known found h asked =
      ap flag_of (found asked)
      ∙ ground (
        arith,
        h asked,
        ap (λ (v : Mirror). v asked) (replay_push s.log (Event.record_deleted id) m),
      )
  deleted-Mirrored m id s (false, t, cs) known found h asked =
      ap flag_of (found asked) ∙ elim (Bool-cases (id == asked)) [
        | inl same ↦ rw same (
            ap flag_of (
              sym (
                find_record_absent asked s.tenant.records
                  (ap (λ j. has j s.tenant) (sym ((==_iff id asked).0 same)) ∙ sym known)))
            ∙ h asked)
        | inr apart ↦ rw apart (h asked)
      ]

  step-Mirrored :
      (m : Mirror) (s : State F) (call : Call F)
      → IsValid s.tenant s.channels
      → Mirrored m s
      → Mirrored m (step s call)
  unfolding step Mock.set_quota Mock.subscribe Mirrored
  step-Mirrored m s (Call.insert rec) v h = elim (insert-cases rec s.tenant s.channels) [
    | inl stopped ↦ rw stopped h
    | inr (fits, done) ↦ rw done (finish-Mirrored m (check_quota rec s.tenant) rec s h)
  ]
  step-Mirrored m s (Call.delete id) v h =
      deleted-Mirrored m id s (Mock.delete id s.tenant s.channels)
        (delete-find_record id id s.tenant s.channels v.ids).0
        (λ j. (delete-find_record id j s.tenant s.channels v.ids).1) h
  step-Mirrored m s (Call.set_quota quota) v h = h
  step-Mirrored m s (Call.subscribe filter) v h = h

  run-Mirrored :
      (stream : EventStream) (m : Mirror) (s : State F) (calls : List (Call F))
      → Follows stream s
      → Mirrored m s
      → Mirrored m (run s calls)
  unfolding run
  run-Mirrored stream m s [] f h = h
  run-Mirrored stream m s (call ∷ calls) f h =
      run-Mirrored stream m (step s call) calls (step-Follows stream s call f)
        (step-Mirrored m s call f.valid h)

  -- On a valid tenant, a subscriber with a filter that lets inserts and deletes pass, who applies
  -- what a loop over its stream yields, with a round more than there are events, to the ids and flags
  -- at the time of the subscription, has after any calls the ids and flags of the tenant.
  pub replay-subscribed :
      (f : EventFilter) (t : MockTenant F) (cs : Channels) (calls : List (Call F)) (n : ℕ)
      (id : RecordId)
      → IsValid t cs
      → f.record_inserted ≡ true
      → f.record_deleted ≡ true
      → length (pending (subscribed f t cs).0 (run (subscribed f t cs).1 calls).channels) < n
      → replay
          (collect n (subscribed f t cs).0 (run (subscribed f t cs).1 calls).channels)
          (mirror t)
          id
        ≡ mirror (run (subscribed f t cs).1 calls).tenant id
  unfolding Mirrored Mock.subscribe
  replay-subscribed f t cs calls n id v ins del enough =
      let (stream, s) = subscribed f t cs in
      ap (λ events. replay events (mirror t) id) (subscribed_sees_all f t cs calls n v enough)
      ∙ ap (λ (m : Mirror). m id) (replay-filter f (run s calls).log (mirror t) ins del)
      ∙ sym (run-Mirrored stream (mirror t) s calls (subscribed-Follows f t cs v) (λ j. refl) id)
