-- ===== src/Tenant/Restore.antt =====
-- A snapshot of a `Tenant` (crates/skeg-rigging-skeg/src/tenant.rs) and what is restored from it.
use mathlib.Core.Path.{ap₂}
use skeg_rigging.Base.{◌≡◌, refl, sym, ap, ◌∙◌, false, Option, none, some, ok, as_u32, arith}
use skeg_rigging.Text.Paths.{FilePath, path_eq}
use skeg_rigging.Fs.{creates, stats, exists_dir, create_dir_all, update_dir, update_dir_self}
use skeg_rigging.Fs.Tree.{Dirs, file, Items, nil, find_item, find_item-set_item}
use skeg_rigging.Fs.Copy.{copy_dir_contents}
use skeg_rigging.Fs.Clones.{clone, IsTree, NoFaults}
use skeg_rigging.Fs.Copies.{copy_dir_contents-clone, copy_dir_contents-ok}
use skeg_rigging.Fs.Shapes.{
  path_eq_comm, clone-clone, find_item-clone, set_item-IsTree, clone-IsTree,
}
use skeg_rigging.Tenant.{Tenant}
use skeg_rigging.Tenant.Engine.{Index}
use skeg_rigging.Tenant.Sidecar.{MetadataSidecar}
use skeg_rigging.Tenant.Lifecycle.{
  Host, meta_name, new_tenant, snapshot, restore_copy, restore_from,
}
use skeg_rigging.Tenant.Reopen.{
  SameFiles, ReadsAlike, HostLaws, HasSidecar, read_from_path-ok, open_tenant-ok, exists-found,
  exists-absent, flush-ok,
}
use skeg_rigging.Tenant.Stored.{IsStored, IsCopy, flushed, flushed-Stands, IsCopy-of_new}

update_dir_ne :
    (path asked : FilePath) (items : Option Items) (dirs : Dirs)
    → path_eq path asked ≡ false
    → update_dir path items dirs asked ≡ dirs asked
update_dir_ne path asked items dirs h = rw h

SameFiles-clone : (items : Items) → SameFiles items (clone items)
SameFiles-clone items name h = ap (find_item name) (clone-clone items)

module _ {I F : Type 0} ⦃e : Index I F⦄ (host : Host I) (laws : HostLaws I F host) where
  create_dir_all-new :
      (path : FilePath) (dirs : Dirs)
      → NoFaults host.faults
      → dirs path ≡ none
      → create_dir_all host.faults path dirs ≡ (ok tt, update_dir path (some nil) dirs)
  unfolding create_dir_all
  create_dir_all-new path dirs calm absent = ground (arith, calm (creates path))

  exists_dir-absent :
      (path : FilePath) (dirs : Dirs)
      → NoFaults host.faults
      → dirs path ≡ none
      → exists_dir host.faults path dirs ≡ false
  unfolding exists_dir
  exists_dir-absent path dirs calm absent = ground (arith, calm (stats path))

  copy_dir_contents-run :
      (src dest : FilePath) (dirs : Dirs) (items : Items)
      → NoFaults host.faults
      → IsTree items
      → dirs src ≡ some items
      → dirs dest ≡ some nil
      → copy_dir_contents host.faults src dest dirs
        ≡ (ok tt, update_dir dest (some (clone items)) dirs)
  copy_dir_contents-run src dest dirs items calm t found empty =
      let done = copy_dir_contents-ok host.faults src dest dirs items calm t found empty in
      ap₂ (λ r d. (r, d)) done
        (copy_dir_contents-clone host.faults src dest dirs items t found empty done)

  -- With no fault, a directory with a sidecar and an index's files is restored into a new directory:
  -- the tenant there has that sidecar, and an index that reads alike.
  restore_from-ok :
      (src dest : FilePath) (dirs : Dirs) (sidecar : MetadataSidecar) (items : Items) (i : I)
      → NoFaults host.faults
      → HasSidecar host src dirs sidecar items
      → IsTree items
      → laws.Stands i items
      → dirs dest ≡ none
      → path_eq dest src ≡ false
      → as_u32 (host.dim i) ≡ sidecar.embedding_dim
      → (i' : I) × ((restore_from host src dest dirs).0
          ≡ ok (new_tenant i' sidecar sidecar.tenant_id sidecar.embedding_dim dest false))
        × ReadsAlike e host.dim i i'
  unfolding restore_from restore_copy
  restore_from-ok src dest dirs sidecar items i calm h t stands absent apart sized =
      let made = update_dir dest (some nil) dirs in
      let copied = update_dir dest (some (clone items)) made in
      let copy =
        copy_dir_contents-run src dest made items calm t
          (update_dir_ne dest src (some nil) dirs apart ∙ h.found)
          (update_dir_self dest (some nil) dirs) in
      let there : HasSidecar host dest copied sidecar (clone items) = record {
        found = update_dir_self dest (some (clone items)) made;
        bytes = h.bytes;
        stored = find_item-clone meta_name h.bytes items h.stored;
        decoded = h.decoded;
      } in
      let (i', opened, alike) =
        open_tenant-ok host laws dest sidecar.tenant_id sidecar.embedding_dim copied sidecar
          (clone items) i calm there
          (laws.Stands_same i items (clone items) stands (SameFiles-clone items)) refl sized in
      (
        i',
        rw
            (
              exists-absent host.faults dest dirs calm absent,
              exists-found host.faults src dirs items (file h.bytes) calm h.found h.stored,
              create_dir_all-new dest dirs calm absent,
              copy,
              read_from_path-ok host dest copied sidecar (clone items) calm there,
            )
            opened,
        alike,
      )

  -- What a snapshot leaves on disk.
  abbrev snapshot_dirs :
      (t : Tenant I) (dirs : Dirs) (dest : FilePath) → IsStored host laws t dirs → Dirs
  snapshot_dirs t dirs dest s =
      update_dir dest (some (clone (flushed host laws t dirs s)))
        (update_dir t.dir (some (flushed host laws t dirs s)) (update_dir dest (some nil) dirs))

  snapshot-run :
      (t : Tenant I) (dirs : Dirs) (dest : FilePath)
      → NoFaults host.faults
      → (s : IsStored host laws t dirs) → dirs dest ≡ none
      → path_eq dest t.dir ≡ false
      → snapshot host t dest dirs ≡ (ok tt, snapshot_dirs t dirs dest s)
  unfolding snapshot
  snapshot-run t dirs dest calm s absent apart =
      let made = update_dir dest (some nil) dirs in
      let done =
        flush-ok host t made s.items s.bytes calm s.writable
          (update_dir_ne dest t.dir (some nil) dirs apart ∙ s.found) s.free s.encoded in
      let mid = update_dir t.dir (some (flushed host laws t dirs s)) made in
      let copy =
        copy_dir_contents-run t.dir dest mid (flushed host laws t dirs s) calm
          (set_item-IsTree meta_name s.bytes s.items s.tree)
          (update_dir_self t.dir (some (flushed host laws t dirs s)) made)
          (update_dir_ne t.dir dest (some (flushed host laws t dirs s)) made
              (path_eq_comm t.dir dest ∙ apart)
            ∙ update_dir_self dest (some nil) dirs) in
      rw
        (
          exists_dir-absent dest dirs calm absent,
          create_dir_all-new dest dirs calm absent,
          done,
          copy,
        )
        refl

  -- Where JSON is read back and an index writes through, for a tenant that may write, with a JSON
  -- form of its sidecar and with its index's files in its directory: with no fault, a snapshot into a
  -- new directory succeeds, and a tenant that is restored from it into another new one has the same
  -- sidecar and yields the same vectors.
  pub snapshot-restore_from :
      (t : Tenant I) (dirs : Dirs) (dest fresh : FilePath)
      → NoFaults host.faults
      → IsStored host laws t dirs
      → dirs dest ≡ none
      → dirs fresh ≡ none
      → path_eq dest t.dir ≡ false
      → path_eq fresh dest ≡ false
      → path_eq fresh t.dir ≡ false
      → ((snapshot host t dest dirs).0 ≡ ok tt)
        × IsCopy host laws t fresh (restore_from host dest fresh (snapshot host t dest dirs).1).0
  snapshot-restore_from t dirs dest fresh calm s absent absent' apart apart_dest apart_dir =
      let I1 = flushed host laws t dirs s in
      let made = update_dir dest (some nil) dirs in
      let mid = update_dir t.dir (some I1) made in
      let after = snapshot_dirs t dirs dest s in
      let there : HasSidecar host dest after t.sidecar (clone I1) = record {
        found = update_dir_self dest (some (clone I1)) mid;
        bytes = s.bytes;
        stored =
            find_item-clone meta_name s.bytes I1
              (find_item-set_item meta_name (file s.bytes) s.items);
        decoded = laws.from_slice-to_vec t.sidecar s.bytes s.encoded;
      } in
      let still : after fresh ≡ none =
        update_dir_ne dest fresh (some (clone I1)) mid (path_eq_comm dest fresh ∙ apart_dest)
        ∙ update_dir_ne t.dir fresh (some I1) made (path_eq_comm t.dir fresh ∙ apart_dir)
        ∙ update_dir_ne dest fresh (some nil) dirs (path_eq_comm dest fresh ∙ apart_dest)
        ∙ absent' in
      let (i', restored, alike) =
        restore_from-ok dest fresh after t.sidecar (clone I1) t.index calm there
          (clone-IsTree I1 (set_item-IsTree meta_name s.bytes s.items s.tree))
          (laws.Stands_same t.index I1 (clone I1) (flushed-Stands host laws t dirs s)
            (SameFiles-clone I1))
          still apart_dest (s.index_dim ∙ sym s.sidecar_dim) in
      rw (snapshot-run t dirs dest calm s absent apart) (
        refl,
        IsCopy-of_new host laws t fresh t.sidecar.tenant_id t.sidecar.embedding_dim i' _ restored
            alike,
      )
