-- ===== src/Tenant/Reopen.antt =====
-- What is found when a directory is opened again, by `open` of
-- crates/skeg-rigging-skeg/src/tenant.rs.
use skeg_rigging.Base.{
  ℕ, ◌∙◌, ◌≡◌, ◌≢◌, Bool, true, false, Option, none, some, List, ok, err, ==_iff, as_u32, arith,
}
use skeg_rigging.Ids.{TenantId}
use skeg_rigging.Text.{Str, text_eq}
use skeg_rigging.Text.Paths.{FilePath, child}
use skeg_rigging.Error.{dim_mismatch}
use skeg_rigging.Fs.{
  creates, reads, writes, create_dir_all, read_file, write_file, exists, exists-seen, Faults, stats,
  update_dir, update_dir_self,
}
use skeg_rigging.Fs.Tree.{Dirs, Item, file, Items, find_item, set_item}
use skeg_rigging.Fs.Clones.{clone, NoFaults}
use skeg_rigging.Tenant.{Tenant}
use skeg_rigging.Tenant.Engine.{Index}
use skeg_rigging.Tenant.Sidecar.{MetadataSidecar}
use skeg_rigging.Tenant.Lifecycle.{
  Host, meta_name, new_tenant, read_from_path, write_to_path, reopen, open_created, open_tenant,
  flush,
}

-- The same files and folders but for the sidecar's.
abbrev pub SameFiles : Items → Items → Type 0
SameFiles a b =
    (name : Str)
    → text_eq meta_name name ≡ false
    → find_item name (clone b) ≡ find_item name (clone a)

-- Two handles that read alike.
abbrev pub ReadsAlike : {I F : Type 0} → Index I F → (I → ℕ) → I → I → Type 0
ReadsAlike e dim i i' = ((id : ℕ) → e.get id i' ≡ e.get id i) × (dim i' ≡ dim i)

-- JSON gives back what it was made from. An index writes through: `Stands` says that a directory
-- holds what it has written, in files and folders of its own; opening such a directory succeeds and
-- reads alike.
pub record HostLaws (I F : Type 0) ⦃e : Index I F⦄ (host : Host I) : Type 1 where
  pub from_slice-to_vec :
      (s : MetadataSidecar) (bytes : List ℕ)
      → host.to_vec s ≡ some bytes
      → host.from_slice bytes ≡ some s
  pub Stands : I → Items → Type 0
  pub Stands_same : (i : I) (a b : Items) → Stands i a → SameFiles a b → Stands i b
  pub open-Stands :
      (i : I) (dir : FilePath) (dirs : Dirs) (items : Items)
      → dirs dir ≡ some items
      → Stands i items
      → (i' : I) × (dirs' : Dirs) × (host.open_index dir dirs ≡ (ok i', dirs'))
        × ReadsAlike e host.dim i i'

pub exists-found :
    (faults : Faults) (dir : FilePath) (dirs : Dirs) (items : Items) (x : Item)
    → NoFaults faults
    → dirs dir ≡ some items
    → find_item meta_name items ≡ some x
    → exists faults dir meta_name dirs ≡ true
exists-found faults dir dirs items x calm found stored =
    exists-seen faults dir meta_name dirs (calm (stats (child dir meta_name))) ∙ rw (found, stored)

pub exists-absent :
    (faults : Faults) (dir : FilePath) (dirs : Dirs)
    → NoFaults faults
    → dirs dir ≡ none
    → exists faults dir meta_name dirs ≡ false
exists-absent faults dir dirs calm absent =
    exists-seen faults dir meta_name dirs (calm (stats (child dir meta_name))) ∙ rw absent

module _ {I : Type 0} (host : Host I) where
  -- A directory whose sidecar's file decodes to `s`.
  pub record HasSidecar (dir : FilePath) (dirs : Dirs) (s : MetadataSidecar) (items : Items)
      : Type 0 where
    pub found : dirs dir ≡ some items
    pub bytes : List ℕ
    pub stored : find_item meta_name items ≡ some (file bytes)
    pub decoded : host.from_slice bytes ≡ some s

  pub read_from_path-ok :
      (dir : FilePath) (dirs : Dirs) (s : MetadataSidecar) (items : Items)
      → NoFaults host.faults
      → HasSidecar dir dirs s items
      → read_from_path host dir dirs ≡ (ok s, dirs)
  unfolding read_from_path read_file
  read_from_path-ok dir dirs s items calm h =
      ground (arith, calm (reads (child dir meta_name)), h.found, h.stored, h.decoded)

  create_dir_all-present :
      (dir : FilePath) (dirs : Dirs) (items : Items)
      → NoFaults host.faults
      → dirs dir ≡ some items
      → create_dir_all host.faults dir dirs ≡ (ok tt, update_dir dir (some items) dirs)
  unfolding create_dir_all
  create_dir_all-present dir dirs items calm found = ground (arith, calm (creates dir))

module _ {I F : Type 0} ⦃e : Index I F⦄ (host : Host I) (laws : HostLaws I F host) where
  reopen-ok :
      (dir : FilePath) (tenant_id : TenantId) (dim : ℕ) (dirs : Dirs) (s : MetadataSidecar)
      (items : Items) (i : I)
      → NoFaults host.faults
      → HasSidecar host dir dirs s items
      → laws.Stands i items
      → s.embedding_dim ≡ dim
      → as_u32 (host.dim i) ≡ dim
      → (i' : I) × ((reopen host dir tenant_id dim dirs).0
          ≡ ok (new_tenant i' s tenant_id dim dir false))
        × ReadsAlike e host.dim i i'
  unfolding reopen
  reopen-ok dir tenant_id dim dirs s items i calm h stands same sized =
      let (i', dirs', opened, alike) = laws.open-Stands i dir dirs items h.found stands in
      (
        i',
        ground (
          arith,
          read_from_path-ok host dir dirs s items calm h,
          opened,
          ==_iff s.embedding_dim dim,
          ==_iff (as_u32 (host.dim i')) dim,
          alike.1,
        ),
        alike,
      )

  -- A directory with a sidecar, and with what an index of the same dimension has written, opens with
  -- that sidecar and with an index that reads alike.
  pub open_tenant-ok :
      (dir : FilePath) (tenant_id : TenantId) (dim : ℕ) (dirs : Dirs) (s : MetadataSidecar)
      (items : Items) (i : I)
      → NoFaults host.faults
      → HasSidecar host dir dirs s items
      → laws.Stands i items
      → s.embedding_dim ≡ dim
      → as_u32 (host.dim i) ≡ dim
      → (i' : I) × ((open_tenant host dir tenant_id dim dirs).0
          ≡ ok (new_tenant i' s tenant_id dim dir false))
        × ReadsAlike e host.dim i i'
  unfolding open_tenant open_created
  open_tenant-ok dir tenant_id dim dirs s items i calm h stands same sized =
      let dirs' = update_dir dir (some items) dirs in
      let found' = update_dir_self dir (some items) dirs in
      let there : HasSidecar host dir dirs' s items = record {
        found = found';
        bytes = h.bytes;
        stored = h.stored;
        decoded = h.decoded;
      } in
      let (i', opened, alike) =
        reopen-ok dir tenant_id dim dirs' s items i calm there stands same sized in
      (
        i',
        rw
            (
              create_dir_all-present host dir dirs items calm h.found,
              exists-found host.faults dir dirs' items (file h.bytes) calm found' h.stored,
            )
            opened,
        alike,
      )

-- `meta.json` can be written: it is not there, or a file.
abbrev pub can_write : Option Item → Bool
can_write none = true
can_write (some (file _)) = true
can_write (some _) = false

module _ {I : Type 0} (host : Host I) where
  pub flush-ok :
      (t : Tenant I) (dirs : Dirs) (items : Items) (bytes : List ℕ)
      → NoFaults host.faults
      → t.read_only ≡ false
      → dirs t.dir ≡ some items
      → can_write (find_item meta_name items) ≡ true
      → host.to_vec t.sidecar ≡ some bytes
      → flush host t dirs
        ≡ (ok tt, update_dir t.dir (some (set_item meta_name (file bytes) items)) dirs)
  unfolding flush write_to_path write_file
  flush-ok t dirs items bytes calm writable found free encoded =
      ground (arith, calm (writes (child t.dir meta_name)))

  -- A directory whose sidecar has another dimension than the one asked for is refused with the two.
  pub open_tenant_mismatch :
      (dir : FilePath) (tenant_id : TenantId) (dim : ℕ) (dirs : Dirs) (s : MetadataSidecar)
      (items : Items)
      → NoFaults host.faults
      → HasSidecar host dir dirs s items
      → s.embedding_dim ≢ dim
      → open_tenant host dir tenant_id dim dirs
        ≡ (err (dim_mismatch s.embedding_dim dim), update_dir dir (some items) dirs)
  unfolding open_tenant open_created reopen
  open_tenant_mismatch dir tenant_id dim dirs s items calm h differ =
      let dirs' = update_dir dir (some items) dirs in
      let found' = update_dir_self dir (some items) dirs in
      let there : HasSidecar host dir dirs' s items = record {
        found = found';
        bytes = h.bytes;
        stored = h.stored;
        decoded = h.decoded;
      } in
      rw
        (
          create_dir_all-present host dir dirs items calm h.found,
          exists-found host.faults dir dirs' items (file h.bytes) calm found' h.stored,
          read_from_path-ok host dir dirs' s items calm there,
        )
        (ground (arith, ==_iff s.embedding_dim dim))
