-- ===== src/Tests/Lifecycles.antt =====
-- A `Tenant` whose directory holds its index's file, flushed, opened, copied and written by an ingest.
use skeg_rigging.Base.{
  ℕ, ◌≡◌, refl, true, false, none, some, List, [], ◌∷◌, ok, err, arith, if◌then◌else◌,
}
use skeg_rigging.Error.{OpenError, dim_mismatch}
use skeg_rigging.Ids.{TenantId}
use skeg_rigging.Text.{codes, text_eq}
use skeg_rigging.Text.Paths.{FilePath, path_eq}
use skeg_rigging.Fs.Tree.{find_item, set_item, Dirs, Items, nil, item, file, folder, other}
use skeg_rigging.Fs.Clones.{clone, IsTree}
use skeg_rigging.Tenant.{Tenant}
use skeg_rigging.Tenant.Lifecycle.{
  meta_name, destroy, open_readonly, flush, open_tenant, snapshot, restore_from,
}
use skeg_rigging.Tenant.Stored.{IsStored, IsCopy, flush-open_tenant}
use skeg_rigging.Tenant.Restore.{snapshot-restore_from}
use skeg_rigging.Fs.{
  create_dir_all, read_file, exists, Faults, writes, missing, read_dir, update_dir,
}
use skeg_rigging.Fs.Copy.{copy_dir_contents}
use skeg_rigging.Fs.Copies.{copy_dir_contents-clone}
use skeg_rigging.Tenant.Reopen.{open_tenant_mismatch}
use skeg_rigging.Tenant.Destroyed.{destroy-open_readonly}
use skeg_rigging.Tenant.Opened.{IsOpened, open_tenant-IsOpened}
use skeg_rigging.Tenant.Lifecycle.{read_from_path, open_created, reopen}
use skeg_rigging.Tests.Hosts.{vectors_name, Index-ids, host, HostLaws-ids}

abbrev pub here : FilePath
here = codes "t" ∷ []

abbrev there : FilePath
there = codes "s" ∷ []

abbrev elsewhere : FilePath
elsewhere = codes "f" ∷ []

abbrev pub id : TenantId
id = record { bytes = [] }

-- The index's file, a folder with a file, and a socket.
abbrev stored_items : Items
stored_items = item vectors_name (file (1 ∷ [])) (
    item (codes "logs") (folder (item (codes "a") (file (5 ∷ [])) nil))
      (item (codes "sock") other nil))

abbrev pub dirs : Dirs
dirs path = if path_eq path here then some stored_items else none

abbrev pub tenant : Tenant (List ℕ)
tenant = record {
  index = 1 ∷ [];
  sidecar = record {
    tenant_id = id;
    embedding_dim = 2;
    records =
        record { record_id = 1; shareable = true; tags = codes "x" ∷ []; payload = 7 ∷ [] } ∷ [];
  };
  tenant_id = id;
  embedding_dim = 2;
  dir = here;
  subscribers = [];
  read_only = false;
}

stored-IsTree : IsTree stored_items
unfolding text_eq find_item
stored-IsTree = (refl, tt, (refl, (refl, tt, tt), (refl, tt, tt)))

tenant-IsStored : IsStored host HostLaws-ids tenant dirs
unfolding path_eq text_eq find_item
tenant-IsStored = record {
  items = stored_items;
  found = refl;
  tree = stored-IsTree;
  stands = refl;
  free = refl;
  bytes = 2 ∷ 2 ∷ 1 ∷ 1 ∷ 1 ∷ 120 ∷ 7 ∷ [];
  encoded = refl;
  writable = refl;
  sidecar_dim = refl;
  index_dim = refl;
}

flush-open_tenant_example :
    ((flush host tenant dirs).0 ≡ ok tt)
    × IsCopy host HostLaws-ids tenant here (open_tenant host here id 2 (flush host tenant dirs).1).0
flush-open_tenant_example =
    flush-open_tenant host HostLaws-ids tenant dirs (λ a. refl) tenant-IsStored

snapshot-restore_from_example :
    ((snapshot host tenant there dirs).0 ≡ ok tt)
    × IsCopy host HostLaws-ids tenant elsewhere
        (restore_from host there elsewhere (snapshot host tenant there dirs).1).0
unfolding path_eq text_eq
snapshot-restore_from_example =
    snapshot-restore_from host HostLaws-ids tenant dirs there elsewhere (λ a. refl) tenant-IsStored
      refl refl refl refl refl

abbrev pub flushed_items : Items
flushed_items = item meta_name (file (2 ∷ 2 ∷ 1 ∷ 1 ∷ 1 ∷ 120 ∷ 7 ∷ [])) stored_items

abbrev pub flushed : Dirs
flushed path = if path_eq path here then some flushed_items else none

open_tenant_mismatch_example :
    open_tenant host here id 3 flushed
    ≡ (err (dim_mismatch 2 3), update_dir here (some flushed_items) flushed)
unfolding path_eq text_eq find_item
open_tenant_mismatch_example =
    open_tenant_mismatch host here id 3 flushed tenant.sidecar flushed_items (λ a. refl)
      (record {
        found = refl;
        bytes = 2 ∷ 2 ∷ 1 ∷ 1 ∷ 1 ∷ 120 ∷ 7 ∷ [];
        stored = refl;
        decoded = refl;
      })
      (λ e. absurd (omega (arith, e)))

destroy-open_readonly_example :
    ((destroy host tenant dirs).0 ≡ ok tt)
    × ((open_readonly host here (destroy host tenant dirs).1).0 ≡ err OpenError.not_found)
    × ((destroy host tenant dirs).1 there ≡ dirs there)
unfolding path_eq text_eq
destroy-open_readonly_example =
    destroy-open_readonly host tenant dirs stored_items there (λ a. refl) refl refl

abbrev copied : Dirs
copied path = if path_eq path there then some nil else dirs path

copy_dir_contents-clone_example :
    (copy_dir_contents host.faults here there copied).1
    ≡ update_dir there (some (clone stored_items)) copied
unfolding path_eq text_eq find_item set_item read_dir copy_dir_contents
copy_dir_contents-clone_example =
    copy_dir_contents-clone host.faults here there copied stored_items stored-IsTree refl refl refl

-- The flushed directory, opened again.
abbrev reopened : Tenant (List ℕ)
reopened = record tenant { index = 1 ∷ [] }

reopens :
    open_tenant host here id 2 flushed ≡ (ok reopened, update_dir here (some flushed_items) flushed)
unfolding open_tenant create_dir_all open_created exists path_eq find_item reopen read_from_path
    read_file
reopens = refl

-- Nothing can be written any more.
abbrev writing_fails : Faults
writing_fails (writes path) = some (record { error = missing; torn = none; rest = none })
writing_fails _ = none

open_tenant-IsOpened_example :
    IsOpened host here 2 reopened (update_dir here (some flushed_items) flushed)
    × (open_created
          (record host { faults = writing_fails })
          here
          id
          2
          (update_dir here (some flushed_items) flushed)
        ≡ reopen
            (record host { faults = writing_fails })
            here
            id
            2
            (update_dir here (some flushed_items) flushed))
open_tenant-IsOpened_example =
    open_tenant-IsOpened host here id 2 flushed (update_dir here (some flushed_items) flushed)
      reopened writing_fails (λ dir dirs. refl) refl reopens
