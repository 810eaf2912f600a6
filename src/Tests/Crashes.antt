-- ===== src/Tests/Crashes.antt =====
-- Calls on the tenant of `Lifecycles`, with one flush among them, then an insert that is refused and a
-- flush whose sidecar has no JSON form, and the process ended behind them.
use skeg_rigging.Base.{ℕ, ◌≡◌, refl, ap, ◌∙◌, true, false, some, List, [], ◌∷◌, ok}
use skeg_rigging.Text.{text_eq}
use skeg_rigging.Text.Paths.{path_eq}
use skeg_rigging.Base.Keyed
use skeg_rigging.Error.{TenantError}
use skeg_rigging.Fs.{update_dir, write_file}
use skeg_rigging.Fs.Tree.{
  Items, file, find_item, set_item, find_item-set_item, find_item-set_item_ne,
}
use skeg_rigging.Fs.Clones.{clone}
use skeg_rigging.Fs.Shapes.{find_item-clone}
use skeg_rigging.Write.{NewRecord}
use skeg_rigging.Tenant
use skeg_rigging.Tenant.{Tenant}
use skeg_rigging.Tenant.Lifecycle.{meta_name, open_tenant, flush, write_to_path}
use skeg_rigging.Tenant.Writer.{Session}
use skeg_rigging.Tenant.Steps.{WritesThrough, Step, Run, start, then}
use skeg_rigging.Tenant.Durable.{FixedDim, IsDurable}
use skeg_rigging.Tenant.Recovered.{calmed, run-open_tenant}
use skeg_rigging.Tests.Hosts.{vectors_name, Index-ids, host, HostLaws-ids}
use skeg_rigging.Tests.Lifecycles.{here, id, tenant, flushed, flushed_items}
use skeg_rigging.Tests.Tenants.{two_channels}

abbrev record_of : ℕ → NewRecord ℕ
record_of id = record {
  record_id = id;
  embedding = 1 ∷ 2 ∷ [];
  shareable = false;
  tags = [];
  payload = [];
}

-- The index writes its ids over its file.
abbrev written_items : List ℕ → Items → Items
written_items ids items = set_item vectors_name (file ids) items

abbrev begin : Session (List ℕ)
begin = record { tenant = tenant; channels = two_channels; dirs = flushed }

abbrev inserting : NewRecord ℕ → Items → Session (List ℕ) → Session (List ℕ)
inserting rec items w =
    let (result, t, cs) = Tenant.insert rec w.tenant w.channels in
    record { tenant = t; channels = cs; dirs = update_dir here (some items) w.dirs }

abbrev items_two : Items
items_two = written_items (2 ∷ 1 ∷ []) flushed_items

abbrev inserted : Session (List ℕ)
inserted = inserting (record_of 2) items_two begin

abbrev deleted : Session (List ℕ)
deleted =
    let (result, t, cs) = Tenant.delete 1 inserted.tenant inserted.channels in
    record { tenant = t; channels = cs; dirs = inserted.dirs }

abbrev saved : Session (List ℕ)
saved = record deleted { dirs = (flush host deleted.tenant deleted.dirs).1 }

abbrev items_three : Items
items_three =
    written_items (3 ∷ 2 ∷ 1 ∷ []) (set_item meta_name (file (1 ∷ 2 ∷ 2 ∷ 0 ∷ [])) items_two)

abbrev last : Session (List ℕ)
last = inserting (record_of 3) items_three saved

FixedDim-ids : FixedDim (List ℕ) ℕ host.dim
FixedDim-ids = record { inserts = λ id v ids. refl; consolidates = λ ids. refl }

holds_ids :
    (ids : List ℕ) (items items' : Items)
    → items' ≡ written_items ids items
    → find_item vectors_name (clone items') ≡ some (file ids)
holds_ids ids items items' wrote =
    find_item-clone vectors_name ids items'
      (ap (find_item vectors_name) wrote ∙ find_item-set_item vectors_name (file ids) items)

WritesThrough-ids : WritesThrough host HostLaws-ids
unfolding text_eq
WritesThrough-ids = record {
  Writes = λ ids items items'. items' ≡ written_items ids items;
  insert-Stands = λ id v i i' items items' taken stands wrote. holds_ids i' items items' wrote;
  consolidate-Stands = λ i i' items items' taken stands wrote. holds_ids i' items items' wrote;
  meta_kept = λ i' items items' wrote.
      ap (find_item meta_name) wrote
      ∙ find_item-set_item_ne vectors_name meta_name (file i') items refl;
}

begin-IsDurable : IsDurable host HostLaws-ids WritesThrough-ids tenant.sidecar begin
unfolding path_eq text_eq find_item
begin-IsDurable = record {
  items = flushed_items;
  sidecar = record {
    found = refl;
    bytes = 2 ∷ 2 ∷ 1 ∷ 1 ∷ 1 ∷ 120 ∷ 7 ∷ [];
    stored = refl;
    decoded = refl;
  };
  stands = refl;
  writable = refl;
  last_dim = refl;
  sidecar_dim = refl;
  index_dim = refl;
}

calls : Run host HostLaws-ids WritesThrough-ids begin tenant.sidecar last saved.tenant.sidecar
unfolding path_eq text_eq find_item set_item Tenant.insert Tenant.delete Tenant.emit flush
    Keyed.store write_to_path write_file WritesThrough-ids
calls =
    then
      (then
        (then
          (Run.flushed
            (then
              (then start (
                Step.insert (record_of 2) refl (record {
                  items = flushed_items;
                  items' = items_two;
                  found = refl;
                  left = refl;
                  wrote = refl;
                })))
              (Step.delete 1 (ok true) refl refl))
            refl refl refl)
          (Step.insert (record_of 3) refl (record {
            items = set_item meta_name (file (1 ∷ 2 ∷ 2 ∷ 0 ∷ [])) items_two;
            items' = items_three;
            found = refl;
            left = refl;
            wrote = refl;
          })))
        (Step.insert_refused (record (record_of 4) { embedding = [] }) 2 0 refl refl))
      (Step.flush_failed TenantError.json refl refl refl refl)

run-open_tenant_example :
    (t' : Tenant (List ℕ)) × ((open_tenant (calmed host) here id 2 last.dirs).0 ≡ ok t')
    × (t'.sidecar ≡ saved.tenant.sidecar)
    × (t'.read_only ≡ false)
    × ((id : ℕ) → Index-ids.get id t'.index ≡ Index-ids.get id last.tenant.index)
unfolding Tenant.insert Tenant.delete Tenant.emit Keyed.store
run-open_tenant_example =
    run-open_tenant host HostLaws-ids FixedDim-ids WritesThrough-ids begin last tenant.sidecar
      saved.tenant.sidecar begin-IsDurable calls
