-- ===== src/Tenant/Lifecycle.antt =====
-- A `Tenant` of crates/skeg-rigging-skeg/src/tenant.rs on disk: open, flush, snapshot, restore and
-- destroy, with the files of meta_sidecar.rs.
use skeg_rigging.Base.{
  ℕ, Bool, true, false, ◌||◌, Option, List, [], ◌∷◌, ok, err, ◌==◌, as_u32, if◌then◌else◌,
}
use skeg_rigging.Ids.{TenantId}
use skeg_rigging.Text.{Str, codes}
use skeg_rigging.Text.Paths.{FilePath}
use skeg_rigging.Error
use skeg_rigging.Error.{ErrorKind, IoError, TenantError, OpenError, dim_mismatch, open_from_tenant}
use skeg_rigging.Fs.{
  Faults, create_dir_all, read_file, write_file, remove_dir_all, exists, exists_dir,
}
use skeg_rigging.Fs.Effects.{Io, ◌>>=◌, pure, map_err, ok_or}
use skeg_rigging.Fs.Tree.{Dirs}
use skeg_rigging.Fs.Copy.{copy_dir_contents}
use skeg_rigging.Fs.Sizes.{sum_dir_bytes}
use skeg_rigging.Manage.{CapabilityId, cap_vector_kv}
use skeg_rigging.Tenant.{Tenant}
use skeg_rigging.Tenant.Sidecar.{MetadataSidecar, empty}

-- What the adapter calls besides std: `serde_json` on the sidecar, and the opening of an index.
pub record Host (I : Type 0) : Type 0 where
  pub faults : Faults
  pub to_vec : MetadataSidecar → Option (List ℕ)
  pub from_slice : List ℕ → Option MetadataSidecar
  pub open_index : FilePath → Io IoError I
  pub create_empty : FilePath → ℕ → ℕ → Io IoError I
  pub dim : I → ℕ

abbrev pub meta_name : Str
meta_name = codes "meta.json"

unfoldable pub index_exists : Faults → FilePath → Dirs → Bool
index_exists faults dir dirs =
    exists faults dir (codes "tier.kind") dirs || exists faults dir (codes "CURRENT") dirs

abbrev pub default_l_search : ℕ
default_l_search = 100

abbrev pub already_exists : TenantError
already_exists = TenantError.io (record { kind = ErrorKind.already_exists })

abbrev pub check_dim : ℕ → ℕ → Io TenantError (Unit {0})
check_dim on_disk requested dirs =
    (if on_disk == requested then ok tt else err (dim_mismatch on_disk requested), dirs)

abbrev pub new_tenant :
    {I : Type 0} → I → MetadataSidecar → TenantId → ℕ → FilePath → Bool → Tenant I
new_tenant index sidecar tenant_id embedding_dim dir read_only = record {
  index = index;
  sidecar = sidecar;
  tenant_id = tenant_id;
  embedding_dim = embedding_dim;
  dir = dir;
  subscribers = [];
  read_only = read_only;
}

-- `capabilities`, and the memory that v0.1 does not measure.
unfoldable pub capabilities : {I : Type 0} → Tenant I → List CapabilityId
capabilities t = cap_vector_kv ∷ []

module _ {I : Type 0} (host : Host I) where
  unfoldable pub read_from_path : FilePath → Io TenantError MetadataSidecar
  read_from_path dir = do
    bytes ← map_err TenantError.io (read_file host.faults dir meta_name)
    ok_or TenantError.json (host.from_slice bytes)

  unfoldable pub write_to_path : MetadataSidecar → FilePath → Io TenantError (Unit {0})
  write_to_path sidecar dir = do
    bytes ← ok_or TenantError.json (host.to_vec sidecar)
    map_err TenantError.io (write_file host.faults dir meta_name bytes)

  -- The three branches of `open`, and what they end with.
  unfoldable pub reopen : FilePath → TenantId → ℕ → Io TenantError (Tenant I)
  reopen dir tenant_id embedding_dim = do
    loaded ← read_from_path dir
    _ ← check_dim loaded.embedding_dim embedding_dim
    idx ← map_err TenantError.io (host.open_index dir)
    _ ← check_dim (as_u32 (host.dim idx)) embedding_dim
    pure (new_tenant idx loaded tenant_id embedding_dim dir false)

  unfoldable pub adopt : FilePath → TenantId → ℕ → Io TenantError (Tenant I)
  adopt dir tenant_id embedding_dim = do
    idx ← map_err TenantError.io (host.open_index dir)
    _ ← check_dim (as_u32 (host.dim idx)) embedding_dim
    _ ← write_to_path (empty tenant_id embedding_dim) dir
    pure (new_tenant idx (empty tenant_id embedding_dim) tenant_id embedding_dim dir false)

  unfoldable pub create : FilePath → TenantId → ℕ → Io TenantError (Tenant I)
  create dir tenant_id embedding_dim = do
    idx ← map_err TenantError.io (host.create_empty dir embedding_dim default_l_search)
    _ ← write_to_path (empty tenant_id embedding_dim) dir
    pure (new_tenant idx (empty tenant_id embedding_dim) tenant_id embedding_dim dir false)

  unfoldable pub open_created : FilePath → TenantId → ℕ → Io TenantError (Tenant I)
  open_created dir tenant_id embedding_dim dirs =
      if exists host.faults dir meta_name dirs
      then reopen dir tenant_id embedding_dim dirs
      else if index_exists host.faults dir dirs
      then adopt dir tenant_id embedding_dim dirs
      else create dir tenant_id embedding_dim dirs

  unfoldable pub open_tenant : FilePath → TenantId → ℕ → Io TenantError (Tenant I)
  open_tenant dir tenant_id embedding_dim = do
    _ ← map_err TenantError.io (create_dir_all host.faults dir)
    open_created dir tenant_id embedding_dim

  open_found : FilePath → Io TenantError (Tenant I)
  open_found dir = do
    sidecar ← read_from_path dir
    idx ← map_err TenantError.io (host.open_index dir)
    _ ← check_dim (as_u32 (host.dim idx)) sidecar.embedding_dim
    pure (new_tenant idx sidecar sidecar.tenant_id sidecar.embedding_dim dir true)

  unfoldable pub open_readonly_at : FilePath → Io TenantError (Tenant I)
  unfolding open_found
  open_readonly_at dir dirs =
      if exists host.faults dir meta_name dirs
      then open_found dir dirs
      else (err TenantError.not_found, dirs)

  unfoldable pub open_readonly : FilePath → Io OpenError (Tenant I)
  unfolding open_readonly_at
  open_readonly path = map_err open_from_tenant (open_readonly_at path)

  unfoldable pub flush : Tenant I → Io TenantError (Unit {0})
  flush t dirs = if t.read_only then (ok tt, dirs) else write_to_path t.sidecar t.dir dirs

  unfoldable pub create_new : FilePath → TenantId → ℕ → Io TenantError (Tenant I)
  create_new path tenant_id embedding_dim dirs =
      if exists host.faults path meta_name dirs
      then (err already_exists, dirs)
      else open_tenant path tenant_id embedding_dim dirs

  unfoldable pub restore_copy : FilePath → FilePath → Io TenantError (Tenant I)
  restore_copy src dest = do
    _ ← map_err TenantError.io (create_dir_all host.faults dest)
    _ ← map_err TenantError.io (copy_dir_contents host.faults src dest)
    sidecar ← read_from_path dest
    open_tenant dest sidecar.tenant_id sidecar.embedding_dim

  unfoldable pub restore_from : FilePath → FilePath → Io TenantError (Tenant I)
  restore_from src dest dirs =
      if exists host.faults dest meta_name dirs
      then (err already_exists, dirs)
      else if exists host.faults src meta_name dirs
      then restore_copy src dest dirs
      else (err TenantError.not_found, dirs)

  -- `if !dest.exists() { create_dir_all(dest)? }`
  abbrev pub ensure_dir : FilePath → Io OpenError (Unit {0})
  ensure_dir dest dirs =
      if exists_dir host.faults dest dirs
      then (ok tt, dirs)
      else map_err Error.open_from_io (create_dir_all host.faults dest) dirs

  unfoldable pub snapshot : Tenant I → FilePath → Io OpenError (Unit {0})
  snapshot t dest = do
    _ ← ensure_dir dest
    _ ← map_err open_from_tenant (flush t)
    map_err OpenError.io (copy_dir_contents host.faults t.dir dest)

  unfoldable pub destroy : Tenant I → Io OpenError (Unit {0})
  destroy t = map_err OpenError.io (remove_dir_all host.faults t.dir)

  unfoldable pub bytes_on_disk : Tenant I → Dirs → ℕ
  bytes_on_disk t dirs = sum_dir_bytes host.faults t.dir dirs

unfoldable pub memory_resident : {I : Type 0} → Tenant I → ℕ
memory_resident t = 0
