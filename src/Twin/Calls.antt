-- ===== src/Twin/Calls.antt =====
-- Sequences of calls on an in-memory tenant (crates/skeg-rigging/src/mock.rs) and on a tenant of
-- the adapter (crates/skeg-rigging-skeg/src/tenant.rs) that hold the same.
use mathlib.Core.Path.{subst}
use skeg_rigging.Base.{ℕ, ◌≡◌, refl, List, [], ◌∷◌}
use skeg_rigging.Event.Channel.{Channels}
use skeg_rigging.Mock
use skeg_rigging.Mock.{MockTenant}
use skeg_rigging.Mock.Query
use skeg_rigging.Tenant
use skeg_rigging.Tenant.{Tenant}
use skeg_rigging.Tenant.Engine.{Index, IndexLaws}
use skeg_rigging.Twin.{Request, Reply, mock_step, tenant_step, mock_run, tenant_run, AllAnswered}
use skeg_rigging.Twin.Alike.{IsAlike, reads-IsAlike}
use skeg_rigging.Twin.Step.{TakesAll, step-Together, mock_step-dim}

module _ {I F : Type 0} ⦃e : Index I F⦄ where
  -- Answers as they should be, the same channels, and tenants that hold the same.
  record Ended (dim : ℕ) (requests : List (Request F)) (a : List Reply × MockTenant F × Channels)
      (b : List Reply × Tenant I × Channels) : Type 0 where
    replies : AllAnswered dim requests a.0 b.0
    channels : a.2 ≡ b.2
    alike : IsAlike a.1 b.1

  run-Ended :
      (laws : IndexLaws I F) (takes : TakesAll I F) (requests : List (Request F)) (m : MockTenant F)
      (t : Tenant I) (cs cs' : Channels)
      → cs ≡ cs'
      → IsAlike m t
      → Ended m.dim requests (mock_run requests m cs) (tenant_run requests t cs')
  unfolding mock_run tenant_run
  run-Ended laws takes [] m t cs cs' same a = record { replies = tt; channels = same; alike = a }
  run-Ended laws takes (request ∷ requests) m t cs cs' same a =
      let step = step-Together laws takes request m t cs a in
      let (_, m', ds) = mock_step request m cs in
      let (_, t', ds') = tenant_step {I = I} request t cs in
      let rest = run-Ended laws takes requests m' t' ds ds' step.channels step.alike in
      subst
        (λ c.
          Ended m.dim (request ∷ requests) (mock_run (request ∷ requests) m cs)
            (tenant_run (request ∷ requests) t c))
        same
        (record {
          replies = (
            step.reply,
            subst
                (λ d.
                  AllAnswered d requests (mock_run requests m' ds).0
                    (tenant_run {I = I} requests t' ds').0)
                (mock_step-dim request m cs) rest.replies,
          );
          channels = rest.channels;
          alike = rest.alike;
        })

  -- On an index that takes every vector and reads it back, and on an in-memory tenant without caps
  -- that holds the same records in the same order, with no id twice: any deletes, subscriptions and
  -- inserts of vectors of their dimension get the same answers from both and send the same events to
  -- the same channels; an insert of another dimension panics in the one where the other returns the
  -- error with both dimensions, and changes neither; and afterwards both yield the same vectors and
  -- the same count.
  pub runs-IsAlike :
      (laws : IndexLaws I F) (takes : TakesAll I F) (requests : List (Request F)) (m : MockTenant F)
      (t : Tenant I) (cs : Channels)
      → IsAlike m t
      → let (replies, m', cs') = mock_run requests m cs in
        let (replies', t', cs'') = tenant_run requests t cs in
        AllAnswered m.dim requests replies replies'
        × (cs' ≡ cs'')
        × (Query.iter_vectors m' ≡ Tenant.iter_vectors t')
        × (Mock.record_count m' ≡ Tenant.record_count t')
        × IsAlike m' t'
  runs-IsAlike laws takes requests m t cs a =
      let ended = run-Ended laws takes requests m t cs cs refl a in
      let (vectors, count, _) = reads-IsAlike _ _ ended.alike in
      (ended.replies, ended.channels, vectors, count, ended.alike)
