-- ===== src/Twin.antt =====
-- The in-memory tenant (crates/skeg-rigging/src/mock.rs) and the adapter
-- (crates/skeg-rigging-skeg/src/tenant.rs) side by side, as crates/skeg-rigging/src/lib.rs means
-- them: interchangeable for who calls them. `Alike` relates their states, `Step` and `Calls` are
-- about their calls.
pub mod Alike
pub mod Step
pub mod Calls
use skeg_rigging.Base.{
  ℕ, ◌≡◌, ◌==◌, Bool, true, false, as_u32, length, List, [], ◌∷◌, Result, ok, err, Outcome,
  returned, panicked,
}
use skeg_rigging.Ids.{RecordId}
use skeg_rigging.Error.{QuotaError, TenantError, dim_mismatch}
use skeg_rigging.Event.{EventFilter}
use skeg_rigging.Event.Channel.{Channels}
use skeg_rigging.Event.Stream.{EventStream}
use skeg_rigging.Write.{NewRecord}
use skeg_rigging.Mock
use skeg_rigging.Mock.{MockRecord, MockTenant}
use skeg_rigging.Tenant
use skeg_rigging.Tenant.{Tenant}
use skeg_rigging.Tenant.Engine.{Index}

-- A call that both have.
pub data Request (F : Type 0) : Type 0 where
  insert : MockRecord F → Request F
  delete : RecordId → Request F
  subscribe : EventFilter → Request F

-- What the caller gets: a panic and an error are two things.
pub data Reply : Type 0 where
  inserted crashed : Reply
  over_quota : QuotaError → Reply
  failed : TenantError → Reply
  deleted : Bool → Reply
  subscribed : EventStream → Reply

-- The arguments of `insert` for a record.
abbrev pub arguments : {F : Type 0} → MockRecord F → NewRecord F
arguments r = record {
  record_id = r.record_id;
  embedding = r.embedding;
  shareable = r.shareable;
  tags = r.tags;
  payload = r.payload;
}

-- What the two answer to an insert of a vector of `n` components, which has their dimension or not:
-- the assertion of the one and the error of the other.
abbrev pub insert_answers : Bool → ℕ → ℕ → Reply × Reply
insert_answers true dim n = (inserted, inserted)
insert_answers false dim n = (crashed, failed (dim_mismatch dim n))

-- Which answers to a request are the right ones of the two tenants of some dimension.
abbrev pub Answered : {F : Type 0} → ℕ → Request F → Reply → Reply → Type 0
Answered dim (insert rec) a b =
    let n = as_u32 (length rec.embedding) in (a, b) ≡ insert_answers (n == dim) dim n
Answered dim (delete id) a b = (removed : Bool) × (a ≡ deleted removed) × (b ≡ deleted removed)
Answered dim (subscribe filter) a b =
    (stream : EventStream) × (a ≡ subscribed stream) × (b ≡ subscribed stream)

abbrev pub AllAnswered : {F : Type 0} → ℕ → List (Request F) → List Reply → List Reply → Type 0
AllAnswered dim [] [] [] = Unit
AllAnswered dim (request ∷ requests) (a ∷ answers) (b ∷ answers') =
    Answered dim request a b × AllAnswered dim requests answers answers'
AllAnswered dim _ _ _ = ⊥

module _ {F : Type 0} where
  -- The caller of a call that panics may go on with the tenant, which the assertion left as it was.
  abbrev pub mock_reply :
      MockTenant F
      → Channels
      → Outcome (Result QuotaError (Unit {0}) × MockTenant F × Channels)
      → Reply × MockTenant F × Channels
  mock_reply m cs panicked = (crashed, m, cs)
  mock_reply m cs (returned (ok _, m', cs')) = (inserted, m', cs')
  mock_reply m cs (returned (err x, m', cs')) = (over_quota x, m', cs')

  unfoldable pub mock_step : Request F → MockTenant F → Channels → Reply × MockTenant F × Channels
  mock_step (Request.insert rec) m cs = mock_reply m cs (Mock.insert rec m cs)
  mock_step (Request.delete id) m cs =
      let (removed, m', cs') = Mock.delete id m cs in (deleted removed, m', cs')
  mock_step (Request.subscribe filter) m cs =
      let (stream, m', cs') = Mock.subscribe filter m cs in (subscribed stream, m', cs')

  unfoldable pub mock_run :
      List (Request F) → MockTenant F → Channels → List Reply × MockTenant F × Channels
  unfolding mock_step
  mock_run [] m cs = ([], m, cs)
  mock_run (request ∷ requests) m cs =
      let (reply, m', cs') = mock_step request m cs in
      let (replies, m'', cs'') = mock_run requests m' cs' in (reply ∷ replies, m'', cs'')

abbrev pub insert_reply : Result TenantError (Unit {0}) → Reply
insert_reply (ok _) = inserted
insert_reply (err x) = failed x

abbrev pub delete_reply : Result TenantError Bool → Reply
delete_reply (ok removed) = deleted removed
delete_reply (err x) = failed x

module _ {I F : Type 0} ⦃e : Index I F⦄ where
  unfoldable pub tenant_step : Request F → Tenant I → Channels → Reply × Tenant I × Channels
  tenant_step (Request.insert rec) t cs =
      let (result, t', cs') = Tenant.insert (arguments rec) t cs in (insert_reply result, t', cs')
  tenant_step (Request.delete id) t cs =
      let (result, t', cs') = Tenant.delete id t cs in (delete_reply result, t', cs')
  tenant_step (Request.subscribe filter) t cs =
      let (stream, t', cs') = Tenant.subscribe filter t cs in (subscribed stream, t', cs')

  unfoldable pub tenant_run :
      List (Request F) → Tenant I → Channels → List Reply × Tenant I × Channels
  unfolding tenant_step
  tenant_run [] t cs = ([], t, cs)
  tenant_run (request ∷ requests) t cs =
      let (reply, t', cs') = tenant_step request t cs in
      let (replies, t'', cs'') = tenant_run requests t' cs' in (reply ∷ replies, t'', cs'')
