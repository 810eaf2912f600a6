-- ===== src/Mock/Records.antt =====
-- The records of a `MockTenant` (crates/skeg-rigging/src/mock.rs) as a map from ids, under `insert`
-- and `delete`.
use skeg_rigging.Base.{
  ◌+◌, ◌≡◌, Bool, false, Option, none, some, ok, err, returned, length, arith, ◌==◌, if◌then◌else◌,
}
use skeg_rigging.Base.Keyed
use skeg_rigging.Ids.{RecordId}
use skeg_rigging.Error.{QuotaError}
use skeg_rigging.Event.Channel.{Channels}
use skeg_rigging.Mock.{MockRecord, MockTenant, key, emit, check_quota, write, insert, delete}

-- The record with an id, as the tenant's readers find it.
module _ {F : Type 0} where
  abbrev pub find_record : RecordId → MockTenant F → Option (MockRecord F)
  find_record id t = Keyed.lookup key id t.records

  abbrev pub has : RecordId → MockTenant F → Bool
  has id t = Keyed.contains key id t.records

  -- A write that is accepted stores the record under its id, and leaves every other id, the
  -- dimension, the quota and the tenant's id alone.
  pub insert-find_record :
      (rec : MockRecord F) (t t' : MockTenant F) (cs cs' : Channels) (id : RecordId)
      → insert rec t cs ≡ returned (ok tt, t', cs')
      → (find_record id t' ≡ (if rec.record_id == id then some rec else find_record id t))
        × (t'.dim ≡ t.dim)
        × (t'.quota ≡ t.quota)
        × (t'.tenant_id ≡ t.tenant_id)
  unfolding insert write emit
  insert-find_record rec t t' cs cs' id h = ground (arith, Keyed.lookup-store key rec t.records id)

  -- A write that the quota rejects changes neither the tenant nor a channel, and its id was new.
  pub insert-err :
      (rec : MockRecord F) (t t' : MockTenant F) (cs cs' : Channels) (e : QuotaError)
      → insert rec t cs ≡ returned (err e, t', cs')
      → (t' ≡ t) × (cs' ≡ cs) × (has rec.record_id t ≡ false)
  unfolding insert check_quota
  insert-err rec t t' cs cs' e h = ground arith

  -- With no id twice, `delete` answers whether the id was there, removes that record and no other.
  pub delete-find_record :
      (id j : RecordId) (t : MockTenant F) (cs : Channels)
      → Keyed.Distinct key t.records
      → ((delete id t cs).0 ≡ has id t)
        × (find_record j (delete id t cs).1 ≡ (if id == j then none else find_record j t))
        × (length (delete id t cs).1.records + (if has id t then 1 else 0) ≡ length t.records)
  unfolding delete emit
  delete-find_record id j t cs d =
      ground (arith, Keyed.lookup-remove key id j t.records, Keyed.length-remove key id t.records d)
