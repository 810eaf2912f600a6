-- ===== src/Mock/Valid.antt =====
-- The invariant of a `MockTenant` (crates/skeg-rigging/src/mock.rs) and of the channels that it
-- sends to, and that every operation keeps it.
use mathlib.Core.Path.{subst}
use skeg_rigging.Base.{
  ℕ, ◌+◌, ◌<◌, ◌≡◌, refl, Bool, true, false, List, [], ◌∷◌, Result, ok, err, returned, panicked,
  length, All, All-append, All-filter, arith, ◌==◌, ==_iff, as_u32, ◌⊎◌, inl, inr, Bool-cases, ◌++◌,
  ◌||◌, not,
}
use skeg_rigging.Base.Keyed
use skeg_rigging.Ids.{RecordId, TenantId}
use skeg_rigging.Error.{QuotaError}
use skeg_rigging.Quota.{Quota}
use skeg_rigging.Event.{Event, EventFilter}
use skeg_rigging.Event.Channel.{Channels, open_channel}
use skeg_rigging.Event.Channel.Broadcast.{
  Distinct, contains, Distinct-broadcast, All-broadcast, next-broadcast,
}
use skeg_rigging.Mock.{
  MockRecord, MockTenant, key, new, emit, check_quota, write, finish, insert, delete, announce,
  subscribe, set_quota,
}

All-weaken : (subs : List ℕ) (n : ℕ) → All (λ s. s < n) subs → All (λ s. s < n + 1) subs
All-weaken [] n h = tt
All-weaken (s ∷ subs) n h = (omega arith, All-weaken subs n h.1)

-- A channel that is opened is no subscriber yet.
contains_fresh : (subs : List ℕ) (n : ℕ) → All (λ s. s < n) subs → contains n subs ≡ false
contains_fresh [] n h = refl
contains_fresh (s ∷ subs) n h = ground (arith, contains_fresh subs n h.1, h.0)

pub contains-append :
    (subs : List ℕ) (s n : ℕ) → contains s (subs ++ n ∷ []) ≡ (contains s subs || n == s)
contains-append [] s n = ground arith
contains-append (x ∷ subs) s n = ground (arith, contains-append subs s n)

pub Distinct-append :
    (subs : List ℕ) (n : ℕ) → All (λ s. s < n) subs → Distinct subs → Distinct (subs ++ n ∷ [])
Distinct-append [] n h d = (refl, tt)
Distinct-append (s ∷ subs) n h d =
    (ground (arith, contains-append subs s n, h.0), Distinct-append subs n h.1 d.1)

module _ {F : Type 0} where
  -- Every embedding has the tenant's dimension.
  abbrev pub Fits : ℕ → MockRecord F → Type 0
  Fits dim r = as_u32 (length r.embedding) ≡ dim

  -- No id and no subscriber twice, only embeddings of the tenant's dimension, and only channels
  -- that were opened.
  pub record IsValid (t : MockTenant F) (cs : Channels) : Type 0 where
    pub ids : Keyed.Distinct key t.records
    pub dims : All (Fits t.dim) t.records
    pub senders : Distinct t.subscribers
    pub opened : All (λ s. s < cs.next) t.subscribers

  pub new-IsValid : (id : TenantId) (dim : ℕ) (cs : Channels) → IsValid (new id dim) cs
  unfolding new
  new-IsValid id dim cs = record { ids = tt; dims = tt; senders = tt; opened = tt }

  pub emit-IsValid :
      (event : Event) (t : MockTenant F) (cs : Channels)
      → IsValid t cs
      → IsValid (emit event t cs).0 (emit event t cs).1
  unfolding emit
  emit-IsValid event t cs v = record {
    ids = v.ids;
    dims = v.dims;
    senders = Distinct-broadcast event t.subscribers cs v.senders;
    opened = rw next-broadcast (All-broadcast (λ s. s < cs.next) event t.subscribers cs v.opened);
  }

  pub store-IsValid :
      (rec : MockRecord F) (t : MockTenant F) (cs : Channels)
      → Fits t.dim rec
      → IsValid t cs
      → IsValid (record t { records = Keyed.store key rec t.records }) cs
  store-IsValid rec t cs fits v = record {
    ids = Keyed.Distinct-store key rec t.records v.ids;
    dims = Keyed.All-store key (Fits t.dim) rec t.records fits v.dims;
    senders = v.senders;
    opened = v.opened;
  }

  pub remove-IsValid :
      (id : RecordId) (t : MockTenant F) (cs : Channels)
      → IsValid t cs
      → IsValid (record t { records = Keyed.remove key id t.records }) cs
  remove-IsValid id t cs v = record {
    ids = Keyed.Distinct-remove key id t.records v.ids;
    dims = All-filter (Fits t.dim) (λ (r : MockRecord F). not (r.record_id == id)) t.records v.dims;
    senders = v.senders;
    opened = v.opened;
  }

  write-IsValid :
      (rec : MockRecord F) (t : MockTenant F) (cs : Channels)
      → Fits t.dim rec
      → IsValid t cs
      → IsValid (write rec t cs).0 (write rec t cs).1
  unfolding write
  write-IsValid rec t cs fits v = emit-IsValid _ _ cs (store-IsValid rec t cs fits v)

  finish-IsValid :
      (checked : Result QuotaError (Unit {0})) (rec : MockRecord F) (t : MockTenant F)
      (cs : Channels)
      → Fits t.dim rec
      → IsValid t cs
      → IsValid (finish checked rec t cs).1 (finish checked rec t cs).2
  unfolding finish
  finish-IsValid (ok _) rec t cs fits v = write-IsValid rec t cs fits v
  finish-IsValid (err e) rec t cs fits v = v

  -- A call that returns had an embedding of the right dimension.
  pub insert-returned :
      (rec : MockRecord F) (t : MockTenant F) (cs : Channels)
      (out : Result QuotaError (Unit {0}) × MockTenant F × Channels)
      → insert rec t cs ≡ returned out
      → Fits t.dim rec × (finish (check_quota rec t) rec t cs ≡ out)
  unfolding insert
  insert-returned rec t cs out h = ground arith

  pub insert-cases :
      (rec : MockRecord F) (t : MockTenant F) (cs : Channels)
      → (insert rec t cs ≡ panicked)
        ⊎ (Fits t.dim rec × (insert rec t cs ≡ returned (finish (check_quota rec t) rec t cs)))
  unfolding insert
  insert-cases rec t cs = elim (Bool-cases (as_u32 (length rec.embedding) == t.dim)) [
    | inl same ↦ inr ((==_iff (as_u32 (length rec.embedding)) t.dim).0 same, rw same)
    | inr other ↦ inl (rw other)
  ]

  -- A write to a valid tenant that returns, accepted or rejected, leaves a valid tenant.
  pub insert-IsValid :
      (rec : MockRecord F) (t t' : MockTenant F) (cs cs' : Channels)
      (r : Result QuotaError (Unit {0}))
      → IsValid t cs
      → insert rec t cs ≡ returned (r, t', cs')
      → IsValid t' cs'
  unfolding insert
  insert-IsValid rec t t' cs cs' r v h =
      let (fits, out) = insert-returned rec t cs (r, t', cs') h in
      subst (λ (o : Result QuotaError (Unit {0}) × MockTenant F × Channels). IsValid o.1 o.2) out
        (finish-IsValid (check_quota rec t) rec t cs fits v)

  announce-IsValid :
      (removed : Bool) (id : RecordId) (t : MockTenant F) (cs : Channels)
      → IsValid t cs
      → IsValid (announce removed id t cs).0 (announce removed id t cs).1
  announce-IsValid true id t cs v = emit-IsValid _ t cs v
  announce-IsValid false id t cs v = v

  -- A delete leaves a valid tenant valid, whether or not the id was there.
  pub delete-IsValid :
      (id : RecordId) (t : MockTenant F) (cs : Channels)
      → IsValid t cs
      → IsValid (delete id t cs).1 (delete id t cs).2
  unfolding delete
  delete-IsValid id t cs v = announce-IsValid _ id _ cs (remove-IsValid id t cs v)

  pub set_quota-IsValid :
      (quota : Quota) (t : MockTenant F) (cs : Channels)
      → IsValid t cs
      → IsValid (set_quota quota t).1 cs
  unfolding set_quota
  set_quota-IsValid quota t cs v = record {
    ids = v.ids;
    dims = v.dims;
    senders = v.senders;
    opened = v.opened;
  }

  pub subscribe-IsValid :
      (filter : EventFilter) (t : MockTenant F) (cs : Channels)
      → IsValid t cs
      → IsValid (subscribe filter t cs).1 (subscribe filter t cs).2
  unfolding subscribe open_channel
  subscribe-IsValid filter t cs v = record {
    ids = v.ids;
    dims = v.dims;
    senders = Distinct-append t.subscribers cs.next v.opened v.senders;
    opened =
        All-append (λ s. s < cs.next + 1) t.subscribers (cs.next ∷ [])
          (All-weaken t.subscribers cs.next v.opened) (omega arith, tt);
  }
