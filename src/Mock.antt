-- ===== src/Mock.antt =====
-- crates/skeg-rigging/src/mock.rs: `MockTenant`, its writes, its counters and its quota. A method
-- takes and returns the tenant and the store of channels; a locked mutex is a field. Sums of 64-bit
-- words wrap, as in a release build.
pub mod Query
pub mod Records
pub mod Valid
pub mod Caps
pub mod Rejects
pub mod Overwrites
pub mod Hits
pub mod Yielded
pub mod Runs
pub mod Broadcasts
pub mod Replay
pub mod Managed
use Prim.Native.String.{String}
use skeg_rigging.Base.{
  ℕ, ◌+◌, ◌*◌, Bool, true, false, not, Option, none, some, List, [], ◌∷◌, ◌++◌, Result, ok, err,
  ◌>>=◌, Outcome, returned, panicked, length, map, ltb, ◌==◌, as_u32, as_u64, add_u64,
  if◌then◌else◌,
}
use skeg_rigging.Base.Keyed
use skeg_rigging.Ids.{RecordId, TenantId}
use skeg_rigging.Text.{Str, len}
use skeg_rigging.Error.{QuotaError, exceeded}
use skeg_rigging.Quota.{Quota, Usage, unlimited}
use skeg_rigging.Event.{Event, EventFilter, record_inserted, record_deleted}
use skeg_rigging.Event.Channel.{Channels, open_channel, broadcast}
use skeg_rigging.Event.Stream.{EventStream}

pub record MockRecord (F : Type 0) : Type 0 where
  pub record_id : RecordId
  pub embedding : List F
  pub shareable : Bool
  pub tags : List Str
  pub payload : List ℕ

pub record MockTenant (F : Type 0) : Type 0 where
  pub tenant_id : TenantId
  pub dim : ℕ
  pub records : List (MockRecord F)
  pub quota : Quota
  pub subscribers : List ℕ

-- `iter().map(…).sum::<u64>()`
unfoldable pub sum_u64 : ℕ → List ℕ → ℕ
sum_u64 acc [] = acc
sum_u64 acc (n ∷ ns) = sum_u64 (add_u64 acc n) ns

-- One test of the quota: no cap, or what the write would reach is within it.
unfoldable pub check_cap : String → Option ℕ → ℕ → Result QuotaError (Unit {0})
check_cap dimension none attempted = ok tt
check_cap dimension (some limit) attempted =
    if ltb limit attempted then err (exceeded dimension limit attempted) else ok tt

module _ {F : Type 0} where
  abbrev pub key : MockRecord F → ℕ
  key r = r.record_id

  unfoldable pub new : TenantId → ℕ → MockTenant F
  new tenant_id embedding_dim = record {
    tenant_id = tenant_id;
    dim = embedding_dim;
    records = [];
    quota = unlimited;
    subscribers = [];
  }

  -- An `f32` takes four bytes.
  unfoldable pub estimate_size : List F → List Str → List ℕ → ℕ
  unfolding sum_u64
  estimate_size embedding tags payload =
      add_u64 (add_u64 (as_u64 (4 * length embedding)) (sum_u64 0 (map (λ t. as_u64 (len t)) tags)))
        (as_u64 (length payload))

  abbrev pub size : MockRecord F → ℕ
  size r = estimate_size r.embedding r.tags r.payload

  unfoldable pub bytes_on_disk : MockTenant F → ℕ
  unfolding sum_u64
  bytes_on_disk t = sum_u64 0 (map size t.records)

  unfoldable pub record_count : MockTenant F → ℕ
  record_count t = as_u64 (length t.records)

  unfoldable pub memory_resident : MockTenant F → ℕ
  memory_resident t = bytes_on_disk t

  unfoldable pub set_quota : Quota → MockTenant F → Result QuotaError (Unit {0}) × MockTenant F
  set_quota quota t = (ok tt, record t { quota = quota })

  unfoldable pub current_usage : MockTenant F → Usage
  current_usage t = record { bytes = bytes_on_disk t; records = as_u64 (length t.records) }

  unfoldable pub emit : Event → MockTenant F → Channels → MockTenant F × Channels
  emit event t cs =
      let (kept, cs') = broadcast event t.subscribers cs in (record t { subscribers = kept }, cs')

  unfoldable pub subscribe :
      EventFilter → MockTenant F → Channels → EventStream × MockTenant F × Channels
  subscribe filter t cs = (
    record { rx = cs.next; filter = filter },
    record t { subscribers = t.subscribers ++ cs.next ∷ [] },
    open_channel cs,
  )

  unfoldable pub check_quota : MockRecord F → MockTenant F → Result QuotaError (Unit {0})
  unfolding check_cap
  check_quota rec t = if Keyed.contains key rec.record_id t.records then ok tt else do
    _ ← check_cap "records" t.quota.max_records (add_u64 (as_u64 (length t.records)) 1)
    check_cap "bytes" t.quota.max_bytes (add_u64 (bytes_on_disk t) (size rec))

  -- The write and its event, behind the tests.
  unfoldable pub write : MockRecord F → MockTenant F → Channels → MockTenant F × Channels
  write rec t cs =
      emit (record_inserted rec.record_id rec.shareable)
        (record t { records = Keyed.store key rec t.records }) cs

  unfoldable pub finish :
      Result QuotaError (Unit {0})
      → MockRecord F
      → MockTenant F
      → Channels
      → Result QuotaError (Unit {0}) × MockTenant F × Channels
  finish (err e) rec t cs = (err e, t, cs)
  finish (ok _) rec t cs = let (t', cs') = write rec t cs in (ok tt, t', cs')

  -- The arguments after the id are the fields of the record that is built from them.
  unfoldable pub insert :
      MockRecord F
      → MockTenant F
      → Channels
      → Outcome (Result QuotaError (Unit {0}) × MockTenant F × Channels)
  unfolding finish
  insert rec t cs =
      if as_u32 (length rec.embedding) == t.dim
      then returned (finish (check_quota rec t) rec t cs)
      else panicked

  abbrev pub announce : Bool → RecordId → MockTenant F → Channels → MockTenant F × Channels
  announce true id t cs = emit (record_deleted id) t cs
  announce false id t cs = (t, cs)

  unfoldable pub delete : RecordId → MockTenant F → Channels → Bool × MockTenant F × Channels
  delete id t cs =
      let kept = Keyed.remove key id t.records in
      let removed = not (length kept == length t.records) in
      let (t', cs') = announce removed id (record t { records = kept }) cs in (removed, t', cs')
