-- ===== src/Mock/Caps.antt =====
-- The quota of a `MockTenant` (crates/skeg-rigging/src/mock.rs) under `insert`.
use Prim.Native.String.{String}
use mathlib.Core.Path.{subst}
use mathlib.Core.List.{map-append}
use skeg_rigging.Base.{
  ℕ, ◌≤◌, ◌≡◌, ◌>>=◌, refl, sym, false, Option, none, some, List, [], ◌∷◌, ◌++◌, Result, ok, err,
  returned, length, map, arith, as_u64, add_u64, length-append, >>=-eq-ok, ap,
}
use skeg_rigging.Base.Keyed
use skeg_rigging.Error.{QuotaError}
use skeg_rigging.Quota.{Quota, Usage}
use skeg_rigging.Event.Channel.{Channels}
use skeg_rigging.Mock.{
  MockRecord, MockTenant, size, sum_u64, bytes_on_disk, current_usage, emit, check_cap, check_quota,
  write, finish, insert,
}
use skeg_rigging.Mock.Records.{has}
use skeg_rigging.Mock.Valid.{insert-returned}

-- A value within a cap, where there is one.
abbrev pub Under : ℕ → Option ℕ → Type 0
Under n none = Unit
Under n (some limit) = n ≤ limit

abbrev pub Within : Quota → Usage → Type 0
Within q u = Under u.bytes q.max_bytes × Under u.records q.max_records

sum_u64-append :
    (acc : ℕ) (ns : List ℕ) (n : ℕ) → sum_u64 acc (ns ++ n ∷ []) ≡ add_u64 (sum_u64 acc ns) n
unfolding sum_u64
sum_u64-append acc [] n = refl
sum_u64-append acc (m ∷ ns) n = sum_u64-append (add_u64 acc m) ns n

check_cap-Under :
    (dimension : String) (limit : Option ℕ) (n : ℕ)
    → check_cap dimension limit n ≡ ok tt
    → Under n limit
unfolding check_cap
check_cap-Under dimension none n h = tt
check_cap-Under dimension (some limit) n h = ground arith

abbrev pub checks : Quota → ℕ → ℕ → Result QuotaError (Unit {0})
checks q records bytes = do
  _ ← check_cap "records" q.max_records records
  check_cap "bytes" q.max_bytes bytes

checks-Under :
    (q : Quota) (records bytes : ℕ)
    → checks q records bytes ≡ ok tt
    → Under records q.max_records × Under bytes q.max_bytes
checks-Under q records bytes h =
    let (_, first, second) =
      >>=-eq-ok (check_cap "records" q.max_records records)
        (λ _. check_cap "bytes" q.max_bytes bytes) h in
    (
      check_cap-Under "records" q.max_records records first,
      check_cap-Under "bytes" q.max_bytes bytes second,
    )

module _ {F : Type 0} where
  abbrev push : MockRecord F → MockTenant F → MockTenant F
  push rec t = record t { records = t.records ++ rec ∷ [] }

  bytes_on_disk-push :
      (rec : MockRecord F) (t : MockTenant F)
      → bytes_on_disk (push rec t) ≡ add_u64 (bytes_on_disk t) (size rec)
  unfolding bytes_on_disk
  bytes_on_disk-push rec t = rw map-append (sum_u64-append 0 (map size t.records) (size rec))

  finish-ok :
      (checked : Result QuotaError (Unit {0})) (rec : MockRecord F) (t t' : MockTenant F)
      (cs cs' : Channels)
      → finish checked rec t cs ≡ (ok tt, t', cs')
      → (checked ≡ ok tt) × (t' ≡ (write rec t cs).0)
  unfolding finish
  finish-ok (ok tt) rec t t' cs cs' h = (refl, cc)
  finish-ok (err e) rec t t' cs cs' h =
      cc (ap (λ (o : Result QuotaError (Unit {0}) × MockTenant F × Channels). o.0) h)

  check_quota-Under :
      (rec : MockRecord F) (t : MockTenant F)
      → has rec.record_id t ≡ false
      → check_quota rec t ≡ ok tt
      → Under (add_u64 (as_u64 (length t.records)) 1) t.quota.max_records
        × Under (add_u64 (bytes_on_disk t) (size rec)) t.quota.max_bytes
  unfolding check_quota
  check_quota-Under rec t fresh h =
      checks-Under t.quota (add_u64 (as_u64 (length t.records)) 1)
        (add_u64 (bytes_on_disk t) (size rec)) (rw fresh at h)

  write-push :
      (rec : MockRecord F) (t : MockTenant F) (cs : Channels)
      → has rec.record_id t ≡ false
      → ((write rec t cs).0.records ≡ t.records ++ rec ∷ []) × ((write rec t cs).0.quota ≡ t.quota)
  unfolding write emit Keyed.store
  write-push rec t cs fresh = ground arith

  Within-push :
      (rec : MockRecord F) (t t' : MockTenant F)
      → t'.records ≡ t.records ++ rec ∷ []
      → Under (add_u64 (as_u64 (length t.records)) 1) t.quota.max_records
      → Under (add_u64 (bytes_on_disk t) (size rec)) t.quota.max_bytes
      → Within t.quota (current_usage t')
  unfolding current_usage bytes_on_disk
  Within-push rec t t' e records bytes = rw e (
    subst (λ n. Under n t.quota.max_bytes) (sym (bytes_on_disk-push rec t)) bytes,
    subst (λ n. Under n t.quota.max_records) (omega (arith, length-append t.records (rec ∷ [])))
        records,
  )

  -- An accepted write of a new id leaves the usage, of bytes and of records, within the quota.
  pub insert-Within :
      (rec : MockRecord F) (t t' : MockTenant F) (cs cs' : Channels)
      → has rec.record_id t ≡ false
      → insert rec t cs ≡ returned (ok tt, t', cs')
      → Within t'.quota (current_usage t')
  insert-Within rec t t' cs cs' fresh h =
      let (_, out) = insert-returned rec t cs (ok tt, t', cs') h in
      let (checked, after) = finish-ok (check_quota rec t) rec t t' cs cs' out in
      let (records, quota) = write-push rec t cs fresh in
      let (under, room) = check_quota-Under rec t fresh checked in
      rw (after, quota) (Within-push rec t (write rec t cs).0 records under room)
