-- ===== src/Tenant/Stored.antt =====
-- A `Tenant` (crates/skeg-rigging-skeg/src/tenant.rs) that is flushed into its directory and opened
-- again.
use skeg_rigging.Base.{ℕ, ◌≡◌, refl, true, false, some, List, [], ◌∷◌, Result, ok, as_u32}
use skeg_rigging.Ids.{TenantId}
use skeg_rigging.Text.Paths.{FilePath}
use skeg_rigging.Error.{TenantError}
use skeg_rigging.Fs.{update_dir, update_dir_self}
use skeg_rigging.Fs.Tree.{Dirs, file, Items, find_item, set_item, find_item-set_item}
use skeg_rigging.Fs.Clones.{IsTree, NoFaults}
use skeg_rigging.Fs.Shapes.{clone-set_item}
use skeg_rigging.Tenant.{Tenant, iter_vectors, vectors_of}
use skeg_rigging.Tenant.Engine.{Index}
use skeg_rigging.Tenant.Sidecar.{RecordEntry}
use skeg_rigging.Tenant.Lifecycle.{Host, meta_name, new_tenant, open_tenant, flush}
use skeg_rigging.Tenant.Reopen.{
  SameFiles, ReadsAlike, HostLaws, HasSidecar, open_tenant-ok, flush-ok, can_write,
}

pub SameFiles-set_item :
    (bytes : List ℕ) (items : Items) → SameFiles items (set_item meta_name (file bytes) items)
SameFiles-set_item bytes items name h = clone-set_item meta_name name bytes items h

module _ {I F : Type 0} ⦃e : Index I F⦄ where
  vectors_of-ReadsAlike :
      (dim : I → ℕ) (i i' : I) (records : List RecordEntry)
      → ReadsAlike e dim i i'
      → vectors_of {F = F} i' records ≡ vectors_of {F = F} i records
  unfolding vectors_of
  vectors_of-ReadsAlike dim i i' [] alike = refl
  vectors_of-ReadsAlike dim i i' (r ∷ records) alike =
      rw (alike.0 r.record_id, vectors_of-ReadsAlike dim i i' records alike)

module _ {I F : Type 0} ⦃e : Index I F⦄ (host : Host I) (laws : HostLaws I F host) where
  -- A tenant that may write, whose directory holds what its index has written, and whose sidecar has
  -- a JSON form.
  pub record IsStored (t : Tenant I) (dirs : Dirs) : Type 0 where
    pub items : Items
    pub found : dirs t.dir ≡ some items
    pub tree : IsTree items
    pub stands : laws.Stands t.index items
    pub free : can_write (find_item meta_name items) ≡ true
    pub bytes : List ℕ
    pub encoded : host.to_vec t.sidecar ≡ some bytes
    pub writable : t.read_only ≡ false
    pub sidecar_dim : t.sidecar.embedding_dim ≡ t.embedding_dim
    pub index_dim : as_u32 (host.dim t.index) ≡ t.embedding_dim

  -- What a flush leaves in the directory.
  abbrev pub flushed : (t : Tenant I) (dirs : Dirs) → IsStored t dirs → Items
  flushed t dirs s = set_item meta_name (file s.bytes) s.items

  abbrev pub flushed_dirs : (t : Tenant I) (dirs : Dirs) → IsStored t dirs → Dirs
  flushed_dirs t dirs s = update_dir t.dir (some (flushed t dirs s)) dirs

  flushed-HasSidecar :
      (t : Tenant I) (dirs : Dirs) (s : IsStored t dirs)
      → HasSidecar host t.dir (flushed_dirs t dirs s) t.sidecar (flushed t dirs s)
  flushed-HasSidecar t dirs s = record {
    found = update_dir_self t.dir (some (flushed t dirs s)) dirs;
    bytes = s.bytes;
    stored = find_item-set_item meta_name (file s.bytes) s.items;
    decoded = laws.from_slice-to_vec t.sidecar s.bytes s.encoded;
  }

  pub flushed-Stands :
      (t : Tenant I) (dirs : Dirs) (s : IsStored t dirs) → laws.Stands t.index (flushed t dirs s)
  flushed-Stands t dirs s =
      laws.Stands_same t.index s.items (flushed t dirs s) s.stands
        (SameFiles-set_item s.bytes s.items)

  -- A tenant in `dir` with the records and the vectors of another.
  abbrev pub IsCopy : Tenant I → FilePath → Result TenantError (Tenant I) → Type 0
  IsCopy t dir opened =
      (t' : Tenant I) × (opened ≡ ok t')
      × (t'.dir ≡ dir)
      × (t'.read_only ≡ false)
      × (t'.sidecar ≡ t.sidecar)
      × (iter_vectors {F = F} t' ≡ iter_vectors {F = F} t)

  pub IsCopy-of_new :
      (t : Tenant I) (dir : FilePath) (tenant_id : TenantId) (dim : ℕ) (i' : I)
      (opened : Result TenantError (Tenant I))
      → opened ≡ ok (new_tenant i' t.sidecar tenant_id dim dir false)
      → ReadsAlike e host.dim t.index i'
      → IsCopy t dir opened
  unfolding iter_vectors
  IsCopy-of_new t dir tenant_id dim i' opened h alike = (
    new_tenant i' t.sidecar tenant_id dim dir false,
    h,
    refl,
    refl,
    refl,
    vectors_of-ReadsAlike host.dim t.index i' t.sidecar.records alike,
  )

  -- Where JSON is read back and an index writes through, for a tenant that may write, with a JSON
  -- form of its sidecar and with its index's files in its directory: with no fault, a flush succeeds,
  -- and a tenant that is then opened in that directory, with the same id and dimension, has the same
  -- sidecar and yields the same vectors.
  pub flush-open_tenant :
      (t : Tenant I) (dirs : Dirs)
      → NoFaults host.faults
      → IsStored t dirs
      → ((flush host t dirs).0 ≡ ok tt)
        × IsCopy t t.dir
            (open_tenant host t.dir t.tenant_id t.embedding_dim (flush host t dirs).1).0
  flush-open_tenant t dirs calm s =
      let done = flush-ok host t dirs s.items s.bytes calm s.writable s.found s.free s.encoded in
      let (i', opened, alike) =
        open_tenant-ok host laws t.dir t.tenant_id t.embedding_dim (flushed_dirs t dirs s) t.sidecar
          (flushed t dirs s) t.index calm (flushed-HasSidecar t dirs s) (flushed-Stands t dirs s)
          s.sidecar_dim s.index_dim in
      rw done (refl, IsCopy-of_new t t.dir t.tenant_id t.embedding_dim i' _ opened alike)
