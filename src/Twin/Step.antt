-- ===== src/Twin/Step.antt =====
-- One call on an in-memory tenant (crates/skeg-rigging/src/mock.rs) and on a tenant of the adapter
-- (crates/skeg-rigging-skeg/src/tenant.rs) that hold the same.
use skeg_rigging.Base.{
  ℕ, ◌≡◌, refl, sym, ap, ◌∙◌, Bool, true, false, Bool-cases, inl, inr, List, [], ◌∷◌, ◌++◌, ok,
  length, length-map, All-filter, arith, not, ◌==◌, as_u32,
}
use skeg_rigging.Base.Keyed
use skeg_rigging.Base.Keyed.Maps.{store-map, remove-map}
use skeg_rigging.Ids.{RecordId}
use skeg_rigging.Error.{dim_mismatch}
use skeg_rigging.Event.{Event, EventFilter, record_inserted, record_deleted}
use skeg_rigging.Event.Channel.{Channels, broadcast}
use skeg_rigging.Quota.{Quota}
use skeg_rigging.Mock
use skeg_rigging.Mock.{MockRecord, MockTenant, key}
use skeg_rigging.Tenant
use skeg_rigging.Tenant.{Tenant}
use skeg_rigging.Tenant.Engine.{Index, IndexLaws}
use skeg_rigging.Tenant.Sidecar.{entry_key}
use skeg_rigging.Twin.{
  Request, Reply, inserted, crashed, failed, deleted, Answered, mock_step, tenant_step,
}
use skeg_rigging.Twin.Alike.{IsAlike, Holds, Holds-insert, entry_of}

-- An index that takes every vector.
pub record TakesAll (I F : Type 0) ⦃e : Index I F⦄ : Type 0 where
  pub taken :
      (id : ℕ) (v : List F) (index : I) → (index' : I) × (e.insert id v index ≡ (ok tt, index'))

module _ {F : Type 0} where
  mock_refused :
      (rec : MockRecord F) (m : MockTenant F) (cs : Channels)
      → (as_u32 (length rec.embedding) == m.dim) ≡ false
      → mock_step (Request.insert rec) m cs ≡ (crashed, m, cs)
  unfolding mock_step Mock.insert
  mock_refused rec m cs other = rw other refl

  pub mock_step-dim :
      (request : Request F) (m : MockTenant F) (cs : Channels)
      → (mock_step request m cs).1.dim ≡ m.dim
  unfolding mock_step Mock.insert Mock.finish Mock.write Mock.emit Mock.delete Mock.subscribe
  mock_step-dim (Request.insert rec) m cs = ground arith
  mock_step-dim (Request.delete id) m cs = ground arith
  mock_step-dim (Request.subscribe filter) m cs = refl

  -- A delete that finds its record, and one that does not.
  mock_deleted :
      (removed : Bool) (id : RecordId) (m : MockTenant F) (cs : Channels)
      → not (length (Keyed.remove key id m.records) == length m.records) ≡ removed
      → let m' = record m { records = Keyed.remove key id m.records } in
        mock_step (Request.delete id) m cs
        ≡ (deleted removed, (Mock.announce removed id m' cs).0, (Mock.announce removed id m' cs).1)
  unfolding mock_step Mock.delete
  mock_deleted removed id m cs h = rw h refl

module _ {I : Type 0} (F : Type 0) ⦃e : Index I F⦄ where
  tenant_deleted :
      (removed : Bool) (id : RecordId) (t : Tenant I) (cs : Channels)
      → t.read_only ≡ false
      → not (length (Keyed.remove entry_key id t.sidecar.records) == length t.sidecar.records)
        ≡ removed
      → let t' = Tenant.with_records (Keyed.remove entry_key id t.sidecar.records) t in
        tenant_step {F = F} (Request.delete id) t cs ≡ (
          deleted removed,
          (Tenant.announce removed id t' cs).0,
          (Tenant.announce removed id t' cs).1,
        )
  unfolding tenant_step Tenant.delete
  tenant_deleted removed id t cs writable h = ground (arith, writable, h)

module _ {I F : Type 0} ⦃e : Index I F⦄ where
  -- Answers as they should be, the same channels, and tenants that hold the same.
  pub record Together (R : Reply → Reply → Type 0) (a : Reply × MockTenant F × Channels)
      (b : Reply × Tenant I × Channels) : Type 0 where
    pub reply : R a.0 b.0
    pub channels : a.2 ≡ b.2
    pub alike : IsAlike a.1 b.1

  -- A subscriber list after an event.
  emit-IsAlike :
      (R : Reply → Reply → Type 0) (event : Event) (m : MockTenant F) (t : Tenant I) (cs : Channels)
      (reply reply' : Reply)
      → R reply reply'
      → IsAlike m t
      → Together R
          (reply, (Mock.emit event m cs).0, (Mock.emit event m cs).1)
          (reply', (Tenant.emit event t cs).0, (Tenant.emit event t cs).1)
  unfolding Mock.emit Tenant.emit
  emit-IsAlike R event m t cs reply reply' right a = record {
    reply = right;
    channels = ap (λ s. (broadcast event s cs).1) a.senders;
    alike = record {
      dim = a.dim;
      ids = a.ids;
      entries = a.entries;
      vectors = a.vectors;
      senders = ap (λ s. (broadcast event s cs).0) a.senders;
      uncapped = a.uncapped;
      writable = a.writable;
    };
  }

  check_quota_uncapped :
      (rec : MockRecord F) (m : MockTenant F) (t : Tenant I)
      → IsAlike m t
      → Mock.check_quota rec m ≡ ok tt
  unfolding Mock.check_quota Mock.check_cap
  check_quota_uncapped rec m t a = ground (
    arith,
    ap (λ (q : Quota). q.max_records) a.uncapped,
    ap (λ (q : Quota). q.max_bytes) a.uncapped,
  )

  stored-IsAlike :
      (laws : IndexLaws I F) (rec : MockRecord F) (m : MockTenant F) (t : Tenant I) (index' : I)
      → e.insert rec.record_id rec.embedding t.index ≡ (ok tt, index')
      → IsAlike m t
      → IsAlike
          (record m { records = Keyed.store key rec m.records })
          (Tenant.with_records
            (Keyed.store entry_key (entry_of rec) t.sidecar.records)
            (record t { index = index' }))
  stored-IsAlike laws rec m t index' done a = record {
    dim = a.dim;
    ids = Keyed.Distinct-store key rec m.records a.ids;
    entries =
        sym (store-map entry_key entry_of rec m.records)
        ∙ ap (Keyed.store entry_key (entry_of rec)) a.entries;
    vectors = Holds-insert laws rec t.index index' m.records done a.ids a.vectors;
    senders = a.senders;
    uncapped = a.uncapped;
    writable = a.writable;
  }

  Together-path :
      (R : Reply → Reply → Type 0) (a a' : Reply × MockTenant F × Channels)
      (b b' : Reply × Tenant I × Channels)
      → a ≡ a'
      → b ≡ b'
      → Together R a' b'
      → Together R a b
  Together-path R a a' b b' left right h = rw (left, right) h

  mock_accepted :
      (rec : MockRecord F) (m : MockTenant F) (t : Tenant I) (cs : Channels)
      → IsAlike m t
      → (as_u32 (length rec.embedding) == m.dim) ≡ true
      → mock_step (Request.insert rec) m cs
        ≡ (inserted, (Mock.write rec m cs).0, (Mock.write rec m cs).1)
  unfolding mock_step Mock.insert Mock.finish
  mock_accepted rec m t cs a fits = rw (fits, check_quota_uncapped rec m t a) refl

  tenant_accepted :
      (rec : MockRecord F) (t : Tenant I) (index' : I) (cs : Channels)
      → t.read_only ≡ false
      → e.insert rec.record_id rec.embedding t.index ≡ (ok tt, index')
      → (as_u32 (length rec.embedding) == t.embedding_dim) ≡ true
      → let t' =
          Tenant.with_records
            (Keyed.store entry_key (entry_of rec) t.sidecar.records)
            (record t { index = index' }) in
        let (t'', cs') = Tenant.emit (record_inserted rec.record_id rec.shareable) t' cs in
        tenant_step (Request.insert rec) t cs ≡ (inserted, t'', cs')
  unfolding tenant_step Tenant.insert Tenant.store_entry
  tenant_accepted rec t index' cs writable done fits = ground (arith, writable, done, fits)

  tenant_refused :
      (rec : MockRecord F) (t : Tenant I) (cs : Channels)
      → t.read_only ≡ false
      → (as_u32 (length rec.embedding) == t.embedding_dim) ≡ false
      → tenant_step (Request.insert rec) t cs
        ≡ (failed (dim_mismatch t.embedding_dim (as_u32 (length rec.embedding))), t, cs)
  unfolding tenant_step Tenant.insert
  tenant_refused rec t cs writable other = ground (arith, writable, other)

  insert-Together :
      (laws : IndexLaws I F) (takes : TakesAll I F) (rec : MockRecord F) (m : MockTenant F)
      (t : Tenant I) (cs : Channels)
      → IsAlike m t
      → Together
          (Answered m.dim (Request.insert rec))
          (mock_step (Request.insert rec) m cs)
          (tenant_step (Request.insert rec) t cs)
  unfolding Mock.write Mock.emit
  insert-Together laws takes rec m t cs a =
      let (index', done) = takes.taken rec.record_id rec.embedding t.index in
      let dims : (as_u32 (length rec.embedding) == t.embedding_dim)
          ≡ (as_u32 (length rec.embedding) == m.dim) =
        ap (λ d. as_u32 (length rec.embedding) == d) (sym a.dim) in
      elim (Bool-cases (as_u32 (length rec.embedding) == m.dim)) [
        | inl fits ↦
            Together-path _ _ _ _ _ (mock_accepted rec m t cs a fits)
              (tenant_accepted rec t index' cs a.writable done (dims ∙ fits))
              (emit-IsAlike _ (record_inserted rec.record_id rec.shareable) _ _ cs inserted inserted
                (rw fits refl) (stored-IsAlike laws rec m t index' done a))
        | inr other ↦
            Together-path _ _ _ _ _ (mock_refused rec m cs other)
              (tenant_refused rec t cs a.writable (dims ∙ other))
              (record { reply = rw (sym a.dim, other) refl; channels = refl; alike = a })
      ]

  removed-IsAlike :
      (id : RecordId) (m : MockTenant F) (t : Tenant I)
      → IsAlike m t
      → IsAlike
          (record m { records = Keyed.remove key id m.records })
          (Tenant.with_records (Keyed.remove entry_key id t.sidecar.records) t)
  removed-IsAlike id m t a = record {
    dim = a.dim;
    ids = Keyed.Distinct-remove key id m.records a.ids;
    entries =
        sym (remove-map entry_key entry_of id m.records) ∙ ap (Keyed.remove entry_key id) a.entries;
    vectors =
        All-filter (Holds t.index) (λ (r : MockRecord F). not (r.record_id == id)) m.records
          a.vectors;
    senders = a.senders;
    uncapped = a.uncapped;
    writable = a.writable;
  }

  announce-IsAlike :
      (removed : Bool) (id : RecordId) (m : MockTenant F) (t : Tenant I) (cs : Channels)
      → IsAlike m t
      → Together
          (Answered {F = F} m.dim (Request.delete id))
          (deleted removed, (Mock.announce removed id m cs).0, (Mock.announce removed id m cs).1)
          (
            deleted removed,
            (Tenant.announce removed id t cs).0,
            (Tenant.announce removed id t cs).1,
          )
  announce-IsAlike true id m t cs a =
      emit-IsAlike _ (record_deleted id) m t cs (deleted true) (deleted true) (true, refl, refl) a
  announce-IsAlike false id m t cs a = record {
    reply = (false, refl, refl);
    channels = refl;
    alike = a;
  }

  delete-Together :
      (id : RecordId) (m : MockTenant F) (t : Tenant I) (cs : Channels)
      → IsAlike m t
      → Together
          (Answered {F = F} m.dim (Request.delete id))
          (mock_step (Request.delete id) m cs)
          (tenant_step {F = F} (Request.delete id) t cs)
  delete-Together id m t cs a =
      let kept = Keyed.remove key id m.records in
      let removed = not (length kept == length m.records) in
      let still : length (Keyed.remove entry_key id t.sidecar.records) ≡ length kept =
        ap (λ rs. length (Keyed.remove entry_key id rs)) (sym a.entries)
        ∙ ap length (remove-map entry_key entry_of id m.records)
        ∙ length-map entry_of kept in
      let before : length t.sidecar.records ≡ length m.records =
        ap length (sym a.entries) ∙ length-map entry_of m.records in
      Together-path _ _ _ _ _ (mock_deleted removed id m cs refl)
        (tenant_deleted F removed id t cs a.writable (ground (arith, still, before)))
        (announce-IsAlike removed id _ _ cs (removed-IsAlike id m t a))

  subscribe-Together :
      (filter : EventFilter) (m : MockTenant F) (t : Tenant I) (cs : Channels)
      → IsAlike m t
      → Together
          (Answered {F = F} m.dim (Request.subscribe filter))
          (mock_step (Request.subscribe filter) m cs)
          (tenant_step {F = F} (Request.subscribe filter) t cs)
  unfolding mock_step tenant_step Mock.subscribe Tenant.subscribe
  subscribe-Together filter m t cs a = record {
    reply = (record { rx = cs.next; filter = filter }, refl, refl);
    channels = refl;
    alike = record {
      dim = a.dim;
      ids = a.ids;
      entries = a.entries;
      vectors = a.vectors;
      senders = ap (λ s. s ++ cs.next ∷ []) a.senders;
      uncapped = a.uncapped;
      writable = a.writable;
    };
  }

  -- Each call gets the right answer from both and sends the same events, and they still hold the
  -- same.
  pub step-Together :
      (laws : IndexLaws I F) (takes : TakesAll I F) (request : Request F) (m : MockTenant F)
      (t : Tenant I) (cs : Channels)
      → IsAlike m t
      → Together (Answered m.dim request) (mock_step request m cs) (tenant_step request t cs)
  step-Together laws takes (Request.insert rec) m t cs a = insert-Together laws takes rec m t cs a
  step-Together laws takes (Request.delete id) m t cs a = delete-Together id m t cs a
  step-Together laws takes (Request.subscribe filter) m t cs a = subscribe-Together filter m t cs a
