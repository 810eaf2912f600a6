-- ===== src/Tests/Tenants.antt =====
-- A `MockTenant` with two records and one subscriber, and calls on it.
use skeg_rigging.Base.{ℕ, true, false, some, none, List, [], ◌∷◌}
use skeg_rigging.Quota.{Quota}
use skeg_rigging.Text.{codes}
use skeg_rigging.Event.{EventFilter, nothing}
use skeg_rigging.Event.Channel.{Channels}
use skeg_rigging.Mock.{MockRecord, MockTenant}
use skeg_rigging.Mock.Runs.{Call, insert, delete, subscribe}

abbrev pub two_channels : Channels
two_channels = record {
  next = 2;
  channel = λ i. record { queue = []; receiver = true; sender = true };
}

abbrev pub one : MockRecord ℕ
one = record {
  record_id = 1;
  embedding = 3 ∷ 4 ∷ [];
  shareable = true;
  tags = codes "a" ∷ [];
  payload = 7 ∷ [];
}

abbrev pub two : MockRecord ℕ
two = record { record_id = 2; embedding = 1 ∷ 0 ∷ []; shareable = false; tags = []; payload = [] }

abbrev pub three : MockRecord ℕ
three = record one { record_id = 3 }

-- The record 1 again, with a payload of 20 bytes.
abbrev pub larger : MockRecord ℕ
larger = record one {
  payload =
      0 ∷ 1 ∷ 2 ∷ 3 ∷ 4 ∷ 5 ∷ 6 ∷ 7 ∷ 8 ∷ 9 ∷ 10 ∷ 11 ∷ 12 ∷ 13 ∷ 14 ∷ 15 ∷ 16 ∷ 17 ∷ 18 ∷ 19 ∷ [];
}

-- The sizes are 10 and 8.
abbrev pub capped : Quota
capped = record { max_bytes = some 30; max_records = some 3 }

abbrev pub tenant : MockTenant ℕ
tenant = record {
  tenant_id = record { bytes = [] };
  dim = 2;
  records = one ∷ two ∷ [];
  quota = capped;
  subscribers = 0 ∷ [];
}

-- No room for a third record.
abbrev pub full : MockTenant ℕ
full = record tenant { quota = record { max_bytes = none; max_records = some 2 } }

abbrev pub inserts_only : EventFilter
inserts_only = record nothing { record_inserted = true }

-- A new record, one that is deleted, one that is not there, and another subscriber.
abbrev pub calls : List (Call ℕ)
calls = insert three ∷ delete 2 ∷ delete 9 ∷ subscribe nothing ∷ insert three ∷ []
