-- ===== src/Mock/Broadcasts.antt =====
-- What a subscriber of a `MockTenant` (crates/skeg-rigging/src/mock.rs) receives over a sequence of
-- calls.
use skeg_rigging.Base
use skeg_rigging.Base.{
  ℕ, ◌<◌, ◌≡◌, ◌≢◌, ◌⊎◌, inl, inr, refl, sym, ap, ◌∙◌, Bool, true, false, ◌&&◌, List, [], ◌∷◌, ◌++◌,
  Result, ok, err, Outcome, returned, panicked, filter, filter-append, length, arith, ◌==◌, ==_iff,
  suc, ◌+◌,
}
use skeg_rigging.Base.Keyed
use skeg_rigging.Ids.{RecordId}
use skeg_rigging.Error.{QuotaError}
use skeg_rigging.Event.{Event, EventFilter, accepts, record_inserted, record_deleted}
use skeg_rigging.Event.Channel.{Channel, Channels, open_channel, broadcast, update_self, update_ne}
use skeg_rigging.Event.Channel.Broadcast.{
  Distinct, contains, is_live, channel-broadcast, contains-broadcast, next-broadcast,
}
use skeg_rigging.Event.Stream.{EventStream}
use skeg_rigging.Event.Stream.Drain.{pending, collect, collect-pending}
use skeg_rigging.Mock
use skeg_rigging.Mock.{key, MockRecord, MockTenant, emit, write, announce, check_quota, finish}
use skeg_rigging.Mock.Runs.{Call, State, inserted, deleted, step, run, subscribed}
use skeg_rigging.Mock.Valid.{
  IsValid, Fits, store-IsValid, remove-IsValid, emit-IsValid, subscribe-IsValid, set_quota-IsValid,
  insert-cases, contains-append,
}

module _ {F : Type 0} where
  -- The stream is subscribed, its receiver exists, and what it can still receive is what passes its
  -- filter of the events announced.
  pub record Follows (stream : EventStream) (s : State F) : Type 0 where
    pub valid : IsValid s.tenant s.channels
    pub subscribed : contains stream.rx s.tenant.subscribers ≡ true
    pub live : is_live s.channels stream.rx ≡ true
    pub opened : stream.rx < s.channels.next
    pub synced : pending stream s.channels ≡ filter (accepts stream.filter) s.log

-- A live subscriber gets the event behind what it has.
pub delivered_live :
    (event : Event) (subs : List ℕ) (cs : Channels) (s : ℕ)
    → Distinct subs
    → contains s subs ≡ true
    → is_live cs s ≡ true
    → (broadcast event subs cs).1.channel s
      ≡ record (cs.channel s) { queue = (cs.channel s).queue ++ event ∷ [] }
delivered_live event subs cs s d member live =
    channel-broadcast event subs cs s d ∙ rw (member, live)

module _ {F : Type 0} (stream : EventStream) where
  emit-Follows :
      (event : Event) (s : State F)
      → IsValid (emit event s.tenant s.channels).0 (emit event s.tenant s.channels).1
      → Follows stream s
      → Follows stream (record {
        tenant = (emit event s.tenant s.channels).0;
        channels = (emit event s.tenant s.channels).1;
        log = s.log ++ event ∷ [];
      })
  unfolding emit
  emit-Follows event s v f =
      let t = s.tenant in
      let cs = s.channels in
      let after =
        delivered_live event t.subscribers cs stream.rx f.valid.senders f.subscribed f.live in
      record {
        valid = v;
        subscribed =
            contains-broadcast event t.subscribers cs stream.rx ∙ rw (f.subscribed, f.live);
        live = ap (λ (c : Channel). c.receiver) after ∙ f.live;
        opened = rw next-broadcast f.opened;
        synced =
            ap (λ (c : Channel). filter (accepts stream.filter) c.queue) after
            ∙ filter-append (accepts stream.filter) (cs.channel stream.rx).queue (event ∷ [])
            ∙ ap (λ evs. evs ++ filter (accepts stream.filter) (event ∷ [])) f.synced
            ∙ sym (filter-append (accepts stream.filter) s.log (event ∷ []));
      }

  -- The records, the quota and the dimension do not matter to the stream.
  Follows-tenant :
      (s : State F) (t : MockTenant F)
      → t.subscribers ≡ s.tenant.subscribers
      → IsValid t s.channels
      → Follows stream s
      → Follows stream (record s { tenant = t })
  Follows-tenant s t same v f = record {
    valid = v;
    subscribed = ap (contains stream.rx) same ∙ f.subscribed;
    live = f.live;
    opened = f.opened;
    synced = f.synced;
  }

  finish-Follows :
      (checked : Result QuotaError (Unit {0})) (rec : MockRecord F) (s : State F)
      → Fits s.tenant.dim rec
      → Follows stream s
      → Follows stream (inserted rec s (returned (finish checked rec s.tenant s.channels)))
  unfolding finish write
  finish-Follows (err e) rec s fits f = f
  finish-Follows (ok _) rec s fits f =
      let t = record s.tenant { records = Keyed.store key rec s.tenant.records } in
      let v = store-IsValid rec s.tenant s.channels fits f.valid in
      let event : Event = record_inserted rec.record_id rec.shareable in
      emit-Follows event (record s { tenant = t }) (emit-IsValid event t s.channels v)
        (Follows-tenant s t refl v f)

  announce-Follows :
      (removed : Bool) (id : RecordId) (s : State F) (t : MockTenant F)
      → t.subscribers ≡ s.tenant.subscribers
      → IsValid t s.channels
      → Follows stream s
      → Follows stream (
          deleted id s
            (removed, (announce removed id t s.channels).0, (announce removed id t s.channels).1))
  announce-Follows true id s t same v f =
      let event : Event = record_deleted id in
      emit-Follows event (record s { tenant = t }) (emit-IsValid event t s.channels v)
        (Follows-tenant s t same v f)
  announce-Follows false id s t same v f = Follows-tenant s t same v f

  -- A channel that is opened is not the stream's.
  subscribe-Follows :
      (s : State F) (filter : EventFilter)
      → Follows stream s
      → Follows stream (record s {
        tenant = (Mock.subscribe filter s.tenant s.channels).1;
        channels = (Mock.subscribe filter s.tenant s.channels).2;
      })
  unfolding Mock.subscribe open_channel
  subscribe-Follows s filter f =
      let other : s.channels.next ≢ stream.rx = omega (arith, f.opened) in
      let same = update_ne s.channels.channel s.channels.next stream.rx _ other in
      record {
        valid = subscribe-IsValid filter s.tenant s.channels f.valid;
        subscribed =
            contains-append s.tenant.subscribers stream.rx s.channels.next ∙ rw f.subscribed;
        live = ap (λ (c : Channel). c.receiver) same ∙ f.live;
        opened = omega (arith, f.opened);
        synced = ap (λ (c : Channel). Base.filter (accepts stream.filter) c.queue) same ∙ f.synced;
      }

  pub step-Follows : (s : State F) (call : Call F) → Follows stream s → Follows stream (step s call)
  unfolding step Mock.delete Mock.set_quota
  step-Follows s (Call.insert rec) f = elim (insert-cases rec s.tenant s.channels) [
    | inl stopped ↦ rw stopped f
    | inr (fits, done) ↦ rw done (finish-Follows (check_quota rec s.tenant) rec s fits f)
  ]
  step-Follows s (Call.delete id) f =
      announce-Follows _ id s _ refl (remove-IsValid id s.tenant s.channels f.valid) f
  step-Follows s (Call.set_quota quota) f =
      Follows-tenant s _ refl (set_quota-IsValid quota s.tenant s.channels f.valid) f
  step-Follows s (Call.subscribe filter) f = subscribe-Follows s filter f

  run-Follows :
      (s : State F) (calls : List (Call F)) → Follows stream s → Follows stream (run s calls)
  unfolding run
  run-Follows s [] f = f
  run-Follows s (call ∷ calls) f = run-Follows (step s call) calls (step-Follows s call f)

pub subscribed-Follows :
    {F : Type 0} (f : EventFilter) (t : MockTenant F) (cs : Channels)
    → IsValid t cs
    → Follows (subscribed f t cs).0 (subscribed f t cs).1
unfolding Mock.subscribe open_channel
subscribed-Follows f t cs v = record {
  valid = subscribe-IsValid f t cs v;
  subscribed =
      contains-append t.subscribers cs.next cs.next ∙ ground (arith, ==_iff cs.next cs.next);
  live = ap (λ (c : Channel). c.receiver) (update_self cs.channel cs.next _);
  opened = omega arith;
  synced = ap (λ (c : Channel). filter (accepts f) c.queue) (update_self cs.channel cs.next _);
}

-- A subscription is independent of what came before it: from its start, whatever the calls on the
-- tenant are, a loop over its stream yields exactly the events announced since, in their order,
-- that pass its filter, however many other subscribers there are.
pub subscribed_sees_all :
    {F : Type 0} (f : EventFilter) (t : MockTenant F) (cs : Channels) (calls : List (Call F))
    (n : ℕ)
    → IsValid t cs
    → length (pending (subscribed f t cs).0 (run (subscribed f t cs).1 calls).channels) < n
    → collect n (subscribed f t cs).0 (run (subscribed f t cs).1 calls).channels
      ≡ filter (accepts f) (run (subscribed f t cs).1 calls).log
unfolding Mock.subscribe
subscribed_sees_all f t cs calls n v enough =
    let (stream, s) = subscribed f t cs in
    collect-pending n stream (run s calls).channels enough
    ∙ (run-Follows stream s calls (subscribed-Follows f t cs v)).synced
