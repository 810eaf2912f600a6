-- ===== src/Suite/Quotas.antt =====
-- The tests of counters and quotas in crates/skeg-rigging/src/mock.rs.
use skeg_rigging.Base.{
  ℕ, ◌≡◌, refl, true, false, none, some, Option, [], ◌∷◌, Outcome, Bool, ltb, ◌==◌, ◌&&◌,
}
use skeg_rigging.Base.Keyed
use skeg_rigging.Event.Channel.{broadcast}
use skeg_rigging.Ids.{anonymous, bytes_eq}
use skeg_rigging.Text.{codes, len}
use skeg_rigging.Quota.{Quota, unlimited, is_unlimited}
use skeg_rigging.Float.{Float}
use skeg_rigging.Mock
use skeg_rigging.Mock.{MockRecord}
use skeg_rigging.Mock.Managed
use skeg_rigging.Suite.{
  ◌>>=◌, assert, passed, World, fresh, rec, insert, insert_err, insert_each, set_quota, exceeds,
  exceeds_by, is_exceeded,
}

-- `==` on an `Option<u64>`
abbrev same_cap : Option ℕ → Option ℕ → Bool
same_cap none none = true
same_cap (some a) (some b) = a == b
same_cap none (some _) = false
same_cap (some _) none = false

abbrev same_quota : Quota → Quota → Bool
same_quota a b = same_cap a.max_bytes b.max_bytes && same_cap a.max_records b.max_records

module _ (F : Type 0) ⦃f : Float F⦄ where
  abbrev stats_bytes_grow_with_records : Outcome (Unit {0})
  stats_bytes_grow_with_records =
      let w : World F = fresh anonymous 3 in
      do
        _ ← assert (Mock.bytes_on_disk w.tenant == 0)
        w1 ←
            insert (rec 1 (true ∷ false ∷ false ∷ []) true (codes "tag" ∷ []) (codes "payload-1")) w
        _ ← assert (ltb 0 (Mock.bytes_on_disk w1.tenant))
        w2 ←
            insert
              (rec 2 (false ∷ true ∷ false ∷ []) true (codes "another" ∷ []) (codes "payload-2")) w1
        assert (ltb (Mock.bytes_on_disk w1.tenant) (Mock.bytes_on_disk w2.tenant))

  -- The record of a round of the loop.
  abbrev numbered : ℕ → MockRecord F
  numbered i = rec i (true ∷ false ∷ []) false [] []

  abbrev stats_record_count_matches_inserts : Outcome (Unit {0})
  stats_record_count_matches_inserts = do
    w ←
        insert_each
          (numbered 0
            ∷ numbered 1
            ∷ numbered 2
            ∷ numbered 3
            ∷ numbered 4
            ∷ numbered 5
            ∷ numbered 6
            ∷ [])
          (fresh anonymous 2)
    assert (Mock.record_count w.tenant == 7)

  abbrev default_quota_is_unlimited : Outcome (Unit {0})
  default_quota_is_unlimited =
      let w : World F = fresh anonymous 2 in
      do
        _ ← assert (same_quota (Managed.quota w.tenant) unlimited)
        assert (is_unlimited (Managed.quota w.tenant))

  abbrev quota_records_blocks_inserts_past_cap : Outcome (Unit {0})
  quota_records_blocks_inserts_past_cap = do
    w ← set_quota {F = F} (record unlimited { max_records = some 2 }) (fresh anonymous 2)
    w1 ← insert (rec 1 (true ∷ false ∷ []) false [] []) w
    w2 ← insert (rec 2 (false ∷ true ∷ []) false [] []) w1
    e ← insert_err (rec 3 (true ∷ true ∷ []) false [] []) w2
    _ ← assert (exceeds_by "records" 2 3 e)
    assert ((Mock.current_usage w2.tenant).records == 2)

  abbrev quota_bytes_blocks_inserts_past_cap : Outcome (Unit {0})
  quota_bytes_blocks_inserts_past_cap = do
    w ← set_quota {F = F} (record unlimited { max_bytes = some 20 }) (fresh anonymous 2)
    w1 ← insert (rec 1 (true ∷ false ∷ []) false [] (codes "x")) w
    w2 ← insert (rec 2 (false ∷ true ∷ []) false [] (codes "y")) w1
    e ← insert_err (rec 3 (true ∷ true ∷ []) false [] (codes "z")) w2
    assert (exceeds "bytes" e)

  abbrev quota_overwrite_existing_record_does_not_trigger_check : Outcome (Unit {0})
  quota_overwrite_existing_record_does_not_trigger_check = do
    w ← insert {F = F} (rec 1 (true ∷ false ∷ []) false [] (codes "x")) (fresh anonymous 2)
    w1 ← set_quota (record unlimited { max_records = some 1 }) w
    w2 ← insert (rec 1 (false ∷ true ∷ []) true [] (codes "x-updated")) w1
    assert ((Mock.current_usage w2.tenant).records == 1)

  abbrev set_quota_below_current_usage_is_allowed_but_blocks_growth : Outcome (Unit {0})
  set_quota_below_current_usage_is_allowed_but_blocks_growth = do
    w ←
        insert_each (numbered 0 ∷ numbered 1 ∷ numbered 2 ∷ numbered 3 ∷ numbered 4 ∷ [])
          (fresh anonymous 2)
    w1 ← set_quota (record unlimited { max_records = some 3 }) w
    _ ← assert ((Mock.current_usage w1.tenant).records == 5)
    e ← insert_err (rec 99 (true ∷ true ∷ []) false [] []) w1
    assert (is_exceeded e)

  quotas_pass :
      (stats_bytes_grow_with_records ≡ passed)
      × (stats_record_count_matches_inserts ≡ passed)
      × (default_quota_is_unlimited ≡ passed)
      × (quota_records_blocks_inserts_past_cap ≡ passed)
      × (quota_bytes_blocks_inserts_past_cap ≡ passed)
      × (quota_overwrite_existing_record_does_not_trigger_check ≡ passed)
      × (set_quota_below_current_usage_is_allowed_but_blocks_growth ≡ passed)
  unfolding Mock.bytes_on_disk Mock.new Mock.insert Mock.check_quota Mock.write Mock.emit
      Keyed.store Keyed.overwrite Mock.estimate_size len Mock.record_count is_unlimited
      Mock.set_quota Mock.current_usage bytes_eq broadcast
  quotas_pass = (refl, refl, refl, refl, refl, refl, refl)
