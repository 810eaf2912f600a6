-- ===== src/Tests/MockRuns.antt =====
-- Witnesses on the tenant of `Tenants`.
use skeg_rigging.Base.{
  ℕ, ◌≡◌, ◌+◌, ◌<◌, refl, true, false, some, none, inr, [], ◌∷◌, ok, err, returned, filter, length,
  arith, ◌⊎◌,
}
use skeg_rigging.Base.Keyed
use skeg_rigging.Error.{QuotaError, exceeded}
use skeg_rigging.Event.{all, accepts, record_inserted, record_deleted}
use skeg_rigging.Event.Channel.{Channels, broadcast, open_channel}
use skeg_rigging.Event.Stream.Drain.{collect, pending}
use skeg_rigging.Mock
use skeg_rigging.Text.{len}
use skeg_rigging.Mock.{
  MockRecord, MockTenant, key, size, check_quota, write, finish, emit, bytes_on_disk, current_usage,
  insert, delete,
}
use skeg_rigging.Mock.Records.{has, find_record, insert-find_record, delete-find_record}
use skeg_rigging.Mock.Caps.{Within, insert-Within}
use skeg_rigging.Mock.Rejects.{Passes, insert-Passes, insert_accepts, next_records, next_bytes}
use skeg_rigging.Mock.Overwrites.{overwrite_passes_cap}
use skeg_rigging.Mock.Valid.{IsValid, insert-IsValid}
use skeg_rigging.Mock.Runs.{run, subscribed}
use skeg_rigging.Mock.Replay.{mirror, replay, replay-subscribed}
use skeg_rigging.Mock.Broadcasts.{subscribed_sees_all}
use skeg_rigging.Tests.Tenants.{
  two_channels, one, two, three, larger, tenant, full, inserts_only, calls,
}

pub tenant-IsValid : IsValid tenant two_channels
tenant-IsValid = record {
  ids = (refl, (refl, tt));
  dims = (refl, (refl, tt));
  senders = (refl, tt);
  opened = (omega arith, tt);
}

few_pending :
    length (
      pending
        (subscribed inserts_only tenant two_channels).0
        (run (subscribed inserts_only tenant two_channels).1 calls).channels)
    < 3
unfolding run insert Mock.subscribe delete check_quota bytes_on_disk Mock.estimate_size len write
    emit Keyed.store broadcast open_channel accepts
few_pending =
    let e : length (
          pending (subscribed inserts_only tenant two_channels).0
            (run (subscribed inserts_only tenant two_channels).1 calls).channels)
        ≡ 2 =
      refl in
    omega (arith, e)

subscribed_sees_all_example :
    collect 3
      (subscribed inserts_only tenant two_channels).0
      (run (subscribed inserts_only tenant two_channels).1 calls).channels
    ≡ filter (accepts inserts_only) (run (subscribed inserts_only tenant two_channels).1 calls).log
subscribed_sees_all_example =
    subscribed_sees_all inserts_only tenant two_channels calls 3 tenant-IsValid few_pending

three_pending :
    length (
      pending
        (subscribed all tenant two_channels).0
        (run (subscribed all tenant two_channels).1 calls).channels)
    ≡ 3
unfolding run insert Mock.subscribe delete check_quota bytes_on_disk Mock.estimate_size len write
    emit Keyed.store broadcast open_channel accepts
three_pending = refl

replay-subscribed_example :
    replay
      (collect 4
        (subscribed all tenant two_channels).0
        (run (subscribed all tenant two_channels).1 calls).channels)
      (mirror tenant)
      2
    ≡ mirror (run (subscribed all tenant two_channels).1 calls).tenant 2
replay-subscribed_example =
    replay-subscribed all tenant two_channels calls 4 2 tenant-IsValid refl refl
      (omega (arith, three_pending))

log_of_calls :
    (run (subscribed inserts_only tenant two_channels).1 calls).log
    ≡ record_inserted 3 true ∷ record_deleted 2 ∷ record_inserted 3 true ∷ []
unfolding run insert Mock.subscribe delete check_quota bytes_on_disk Mock.estimate_size len write
    emit Keyed.store
log_of_calls = refl

sizes :
    (size one ≡ 10)
    × (size two ≡ 8)
    × (size three ≡ 10)
    × (size larger ≡ 29)
    × (bytes_on_disk tenant ≡ 18)
unfolding Mock.estimate_size bytes_on_disk len
sizes = (refl, refl, refl, refl, refl)

-- The tenant and the channels behind an accepted write.
abbrev added : MockTenant ℕ
added = (write three tenant two_channels).0

abbrev added_channels : Channels
added_channels = (write three tenant two_channels).1

three_accepted : insert three tenant two_channels ≡ returned (ok tt, added, added_channels)
unfolding insert check_quota bytes_on_disk Mock.estimate_size len
three_accepted = refl

insert_accepts_example : insert three tenant two_channels ≡ returned (ok tt, added, added_channels)
insert_accepts_example =
    insert_accepts three tenant two_channels refl
      (inr (ground (arith, sizes), ground (arith, sizes)))

insert-Within_example : Within added.quota (current_usage added)
insert-Within_example =
    insert-Within three tenant added two_channels added_channels refl three_accepted

insert-find_record_example :
    (find_record 3 added ≡ some three)
    × (added.dim ≡ tenant.dim)
    × (added.quota ≡ tenant.quota)
    × (added.tenant_id ≡ tenant.tenant_id)
insert-find_record_example =
    insert-find_record three tenant added two_channels added_channels 3 three_accepted

insert-IsValid_example : IsValid added added_channels
insert-IsValid_example =
    insert-IsValid three tenant added two_channels added_channels (ok tt) tenant-IsValid
      three_accepted

abbrev over : QuotaError
over = exceeded "records" 2 3

three_rejected : insert three full two_channels ≡ returned (err over, full, two_channels)
unfolding insert check_quota
three_rejected = refl

insert-Passes_example :
    (has 3 full ≡ false)
    × (Passes "records" (some 2) (next_records full) over
        ⊎ Passes "bytes" none (next_bytes three full) over)
insert-Passes_example = insert-Passes three full full two_channels two_channels over three_rejected

overwrite_passes_cap_example :
    (insert larger tenant two_channels
      ≡ returned
          (ok tt, (write larger tenant two_channels).0, (write larger tenant two_channels).1))
    × (30 < bytes_on_disk (write larger tenant two_channels).0)
overwrite_passes_cap_example =
    overwrite_passes_cap larger one tenant two_channels 30 refl refl refl (omega (arith, sizes))
      (omega (arith, sizes))

delete-find_record_example :
    ((delete 2 tenant two_channels).0 ≡ true)
    × (find_record 2 (delete 2 tenant two_channels).1 ≡ none)
    × (length (delete 2 tenant two_channels).1.records + 1 ≡ 2)
delete-find_record_example = delete-find_record 2 2 tenant two_channels tenant-IsValid.ids
