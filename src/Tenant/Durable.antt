-- ===== src/Tenant/Durable.antt =====
-- What survives of a `Tenant` (crates/skeg-rigging-skeg/src/tenant.rs) when its process ends: the
-- metadata of the last flush, and every vector of the index.
use mathlib.Core.Path.{subst}
use mathlib.Core.Option.{some-injective}
use skeg_rigging.Base.{
  ℕ, ◌≡◌, sym, ap, ◌∙◌, Bool, false, some, List, Result, ok, err, Option-cases, inl, inr, as_u32,
  arith,
}
use skeg_rigging.Ids.{RecordId}
use skeg_rigging.Error.{TenantError, dim_mismatch}
use skeg_rigging.Event.{EventFilter}
use skeg_rigging.Event.Channel.{Channels}
use skeg_rigging.Event.Stream.{EventStream}
use skeg_rigging.Fs.{update_dir, update_dir_self, find_in, write_file}
use skeg_rigging.Fs.Tree.{Dirs, Items, file, find_item, set_item}
use skeg_rigging.Write.{NewRecord}
use skeg_rigging.Tenant
use skeg_rigging.Tenant.{Tenant}
use skeg_rigging.Tenant.Engine.{Index}
use skeg_rigging.Tenant.Sidecar.{MetadataSidecar}
use skeg_rigging.Tenant.Lifecycle.{Host, meta_name, open_tenant, new_tenant, write_to_path}
use skeg_rigging.Tenant.Lifecycle as Lifecycle
use skeg_rigging.Tenant.Reopen.{HostLaws, HasSidecar}
use skeg_rigging.Tenant.Steps.{WritesThrough, IsWritten}
use skeg_rigging.Tenant.Writer.{Session}

-- What a call leaves of a tenant: where it is and how large its vectors are.
abbrev pub SameTenant : {I : Type 0} → Tenant I → Tenant I → Type 0
SameTenant t t' =
    (t'.dir ≡ t.dir)
    × (t'.read_only ≡ t.read_only)
    × (t'.tenant_id ≡ t.tenant_id)
    × (t'.embedding_dim ≡ t.embedding_dim)
    × (t'.sidecar.embedding_dim ≡ t.sidecar.embedding_dim)

-- The dimension of an index is fixed.
pub record FixedDim (I F : Type 0) ⦃e : Index I F⦄ (dim : I → ℕ) : Type 0 where
  pub inserts : (id : ℕ) (v : List F) (i : I) → dim (e.insert id v i).1 ≡ dim i
  pub consolidates : (i : I) → dim (e.consolidate i).1 ≡ dim i

module _ {I F : Type 0} ⦃e : Index I F⦄ (dim : I → ℕ) (fixed : FixedDim I F dim) where
  pub insert-SameTenant :
      (rec : NewRecord F) (t t' : Tenant I) (cs cs' : Channels)
      (result : Result TenantError (Unit {0}))
      → Tenant.insert rec t cs ≡ (result, t', cs')
      → SameTenant t t' × (dim t'.index ≡ dim t.index)
  unfolding Tenant.insert Tenant.emit
  insert-SameTenant rec t t' cs cs' result h =
      ground (arith, fixed.inserts rec.record_id rec.embedding t.index)

  -- What is accepted was taken by the index, and what is refused was not shown to it.
  pub insert-taken :
      (rec : NewRecord F) (t t' : Tenant I) (cs cs' : Channels)
      → Tenant.insert rec t cs ≡ (ok tt, t', cs')
      → e.insert rec.record_id rec.embedding t.index ≡ (ok tt, t'.index)
  unfolding Tenant.insert Tenant.store_entry Tenant.emit
  insert-taken rec t t' cs cs' h = ground arith

  pub refused-SameTenant :
      (rec : NewRecord F) (t t' : Tenant I) (cs cs' : Channels) (on_disk requested : ℕ)
      → Tenant.insert rec t cs ≡ (err (dim_mismatch on_disk requested), t', cs')
      → SameTenant t t' × (t'.index ≡ t.index)
  unfolding Tenant.insert Tenant.store_entry Tenant.emit
  refused-SameTenant rec t t' cs cs' on_disk requested h = ground arith

  pub consolidate-taken :
      (t t' : Tenant I)
      → t.read_only ≡ false
      → Tenant.consolidate F t ≡ (ok tt, t')
      → e.consolidate t.index ≡ (ok tt, t'.index)
  unfolding Tenant.consolidate
  consolidate-taken t t' writable h = ground arith

  pub consolidate-SameTenant :
      (t t' : Tenant I) (result : Result TenantError (Unit {0}))
      → Tenant.consolidate F t ≡ (result, t')
      → SameTenant t t' × (dim t'.index ≡ dim t.index)
  unfolding Tenant.consolidate
  consolidate-SameTenant t t' result h = ground (arith, fixed.consolidates t.index)

module _ {I : Type 0} where
  pub delete-SameTenant :
      (id : RecordId) (t t' : Tenant I) (cs cs' : Channels) (result : Result TenantError Bool)
      → Tenant.delete id t cs ≡ (result, t', cs')
      → SameTenant t t' × (t'.index ≡ t.index)
  unfolding Tenant.delete Tenant.emit
  delete-SameTenant id t t' cs cs' result h = ground arith

  pub subscribe-SameTenant :
      (filter : EventFilter) (stream : EventStream) (t t' : Tenant I) (cs cs' : Channels)
      → Tenant.subscribe filter t cs ≡ (stream, t', cs')
      → SameTenant t t' × (t'.index ≡ t.index)
  unfolding Tenant.subscribe
  subscribe-SameTenant filter stream t t' cs cs' h = ground arith

module _ {I : Type 0} (host : Host I) where
  -- A flush that succeeds on a directory with a sidecar puts the tenant's there.
  pub flush-dirs :
      (t : Tenant I) (dirs dirs' : Dirs) (items : Items) (bytes : List ℕ)
      → t.read_only ≡ false
      → dirs t.dir ≡ some items
      → find_item meta_name items ≡ some (file bytes)
      → Lifecycle.flush host t dirs ≡ (ok tt, dirs')
      → (json : List ℕ) × (host.to_vec t.sidecar ≡ some json)
        × (dirs' ≡ update_dir t.dir (some (set_item meta_name (file json) items)) dirs)
  unfolding Lifecycle.flush write_to_path write_file
  flush-dirs t dirs dirs' items bytes writable found stored h =
      elim (Option-cases (host.to_vec t.sidecar)) [
        | inl absent ↦ absurd (ground (arith, absent))
        | inr (json, encoded) ↦ (json, encoded, ground (arith, encoded))
      ]

module _ {I F : Type 0} ⦃e : Index I F⦄ (host : Host I) (laws : HostLaws I F host)
    (through : WritesThrough host laws) where
  -- A tenant that may write, over a directory with what its index has written and with the sidecar
  -- `last`.
  pub record IsDurable (last : MetadataSidecar) (w : Session I) : Type 0 where
    pub items : Items
    pub sidecar : HasSidecar host w.tenant.dir w.dirs last items
    pub stands : laws.Stands w.tenant.index items
    pub writable : w.tenant.read_only ≡ false
    pub last_dim : last.embedding_dim ≡ w.tenant.embedding_dim
    pub sidecar_dim : w.tenant.sidecar.embedding_dim ≡ w.tenant.embedding_dim
    pub index_dim : as_u32 (host.dim w.tenant.index) ≡ w.tenant.embedding_dim

  pub written-IsDurable :
      (last : MetadataSidecar) (w w' : Session I)
      → (i : IsWritten host laws through w w')
      → (laws.Stands w.tenant.index i.items → laws.Stands w'.tenant.index i.items')
      → SameTenant w.tenant w'.tenant × (host.dim w'.tenant.index ≡ host.dim w.tenant.index)
      → IsDurable last w
      → IsDurable last w'
  written-IsDurable last w w' i stays ((dir, read_only, id, dim, side), size) d =
      let same_items : d.items ≡ i.items = some-injective _ _ (sym d.sidecar.found ∙ i.found) in
      record {
        items = i.items';
        sidecar = record {
          found =
              ap (λ (s : Dirs). s w'.tenant.dir) i.left
              ∙ ap (update_dir w.tenant.dir (some i.items') w.dirs) dir
              ∙ update_dir_self w.tenant.dir (some i.items') w.dirs;
          bytes = d.sidecar.bytes;
          stored =
              through.meta_kept w'.tenant.index i.items i.items' i.wrote
              ∙ ap (find_in meta_name) (sym i.found ∙ d.sidecar.found)
              ∙ d.sidecar.stored;
          decoded = d.sidecar.decoded;
        };
        stands = stays (subst (laws.Stands w.tenant.index) same_items d.stands);
        writable = read_only ∙ d.writable;
        last_dim = d.last_dim ∙ sym dim;
        sidecar_dim = side ∙ d.sidecar_dim ∙ sym dim;
        index_dim = ap as_u32 size ∙ d.index_dim ∙ sym dim;
      }

  pub same-IsDurable :
      (last : MetadataSidecar) (w w' : Session I)
      → w'.dirs ≡ w.dirs
      → SameTenant w.tenant w'.tenant × (w'.tenant.index ≡ w.tenant.index)
      → IsDurable last w
      → IsDurable last w'
  same-IsDurable last w w' dirs ((dir, read_only, id, dim, side), index) d = record {
    items = d.items;
    sidecar = record {
      found = ap (λ (s : Dirs). s w'.tenant.dir) dirs ∙ ap w.dirs dir ∙ d.sidecar.found;
      bytes = d.sidecar.bytes;
      stored = d.sidecar.stored;
      decoded = d.sidecar.decoded;
    };
    stands = subst (λ i. laws.Stands i d.items) (sym index) d.stands;
    writable = read_only ∙ d.writable;
    last_dim = d.last_dim ∙ sym dim;
    sidecar_dim = side ∙ d.sidecar_dim ∙ sym dim;
    index_dim = ap (λ i. as_u32 (host.dim i)) index ∙ d.index_dim ∙ sym dim;
  }
