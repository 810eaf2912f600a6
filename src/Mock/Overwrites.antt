-- ===== src/Mock/Overwrites.antt =====
-- What an overwrite by `insert` of crates/skeg-rigging/src/mock.rs does to the bytes in use.
use skeg_rigging.Base.{
  ℕ, ◌+◌, ◌%◌, ◌^◌, ◌<◌, ◌≡◌, true, some, List, [], ◌∷◌, inl, ok, returned, map, arith, add_u64,
}
use skeg_rigging.Base.Keyed
use skeg_rigging.Event.Channel.{Channels}
use skeg_rigging.Mock.{
  MockRecord, MockTenant, key, size, sum_u64, bytes_on_disk, emit, write, insert,
}
use skeg_rigging.Mock.Records.{has, find_record}
use skeg_rigging.Mock.Valid.{Fits}
use skeg_rigging.Mock.Rejects.{insert_accepts}

abbrev pub sum : List ℕ → ℕ
sum [] = 0
sum (n ∷ ns) = n + sum ns

-- The loop of `sum` is the sum of the sizes, reduced to a word.
sum_u64-sum : (acc : ℕ) (ns : List ℕ) → acc < 2 ^ 64 → sum_u64 acc ns ≡ (acc + sum ns) % 2 ^ 64
unfolding sum_u64
sum_u64-sum acc [] h = omega arith
sum_u64-sum acc (n ∷ ns) h = omega (arith, sum_u64-sum (add_u64 acc n) ns (omega arith))

module _ {F : Type 0} where
  -- The sizes of all records, with no wrap-around.
  abbrev pub total : List (MockRecord F) → ℕ
  total records = sum (map size records)

  total-overwrite :
      (rec old : MockRecord F) (records : List (MockRecord F))
      → Keyed.lookup key rec.record_id records ≡ some old
      → total (Keyed.overwrite key rec records) + size old ≡ total records + size rec
  unfolding Keyed.overwrite
  total-overwrite rec old [] h = cc
  total-overwrite rec old (r ∷ records) h = ground (arith, total-overwrite rec old records)

  has_of_find :
      (id : ℕ) (old : MockRecord F) (records : List (MockRecord F))
      → Keyed.lookup key id records ≡ some old
      → Keyed.contains key id records ≡ true
  has_of_find id old [] h = cc
  has_of_find id old (r ∷ records) h = ground (arith, has_of_find id old records)

  write-overwrite :
      (rec : MockRecord F) (t : MockTenant F) (cs : Channels)
      → has rec.record_id t ≡ true
      → (write rec t cs).0.records ≡ Keyed.overwrite key rec t.records
  unfolding write emit Keyed.store
  write-overwrite rec t cs old = ground arith

  -- An overwrite of a fitting embedding is accepted whatever the byte cap: if the new record is so
  -- much larger than the old that the sum of the sizes passes the cap (and fits a word), the tenant
  -- is over its cap after the call.
  pub overwrite_passes_cap :
      (rec old : MockRecord F) (t : MockTenant F) (cs : Channels) (limit : ℕ)
      → Fits t.dim rec
      → find_record rec.record_id t ≡ some old
      → t.quota.max_bytes ≡ some limit
      → limit + size old < total t.records + size rec
      → total t.records + size rec < 2 ^ 64
      → (insert rec t cs ≡ returned (ok tt, (write rec t cs).0, (write rec t cs).1))
        × (limit < bytes_on_disk (write rec t cs).0)
  unfolding bytes_on_disk
  overwrite_passes_cap rec old t cs limit fits found capped over word =
      let present = has_of_find rec.record_id old t.records found in
      (
        insert_accepts rec t cs fits (inl present),
        rw (write-overwrite rec t cs present) (
            omega (
              arith,
              sum_u64-sum 0 (map size (Keyed.overwrite key rec t.records)) (omega arith),
              total-overwrite rec old t.records found,
            )),
      )
