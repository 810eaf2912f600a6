-- ===== src/Tenant/Recovered.antt =====
-- What opening finds after the process of a `Tenant` (crates/skeg-rigging-skeg/src/tenant.rs) ended
-- between any two of its calls.
use mathlib.Core.Path.{subst}
use skeg_rigging.Base.{ℕ, ◌≡◌, refl, sym, ap, ◌∙◌, false, none, some, ok, as_u32}
use skeg_rigging.Fs.{update_dir, update_dir_self}
use skeg_rigging.Fs.Tree.{Dirs, file, set_item, find_item-set_item}
use skeg_rigging.Tenant.{Tenant}
use skeg_rigging.Tenant.Engine.{Index}
use skeg_rigging.Tenant.Sidecar.{MetadataSidecar}
use skeg_rigging.Tenant.Lifecycle.{Host, meta_name, open_tenant, new_tenant, flush}
use skeg_rigging.Tenant.Reopen.{HostLaws, HasSidecar, open_tenant-ok}
use skeg_rigging.Tenant.Stored.{SameFiles-set_item}
use skeg_rigging.Tenant.Steps.{
  WritesThrough, Step, insert, insert_refused, delete, consolidate, subscribe, flush_failed, Run,
  start, then, flushed,
}
use skeg_rigging.Tenant.Durable.{
  FixedDim, IsDurable, insert-SameTenant, delete-SameTenant, consolidate-SameTenant,
  subscribe-SameTenant, SameTenant, insert-taken, consolidate-taken, refused-SameTenant, flush-dirs,
  written-IsDurable, same-IsDurable,
}
use skeg_rigging.Tenant.Writer.{Session}

-- A host whose accesses do not fail any more.
abbrev pub calmed : {I : Type 0} → Host I → Host I
calmed host = record host { faults = λ access. none }

SameTenant-path : {I : Type 0} (t t' : Tenant I) → t' ≡ t → SameTenant t t'
SameTenant-path t t' same = (
  ap (λ x. x.dir) same,
  ap (λ x. x.read_only) same,
  ap (λ x. x.tenant_id) same,
  ap (λ x. x.embedding_dim) same,
  ap (λ x. x.sidecar.embedding_dim) same,
)

module _ {I F : Type 0} ⦃e : Index I F⦄ (host : Host I) (laws : HostLaws I F host)
    (fixed : FixedDim I F host.dim) (through : WritesThrough host laws) where
  abbrev HostLaws-calmed : HostLaws I F (calmed host)
  HostLaws-calmed = record {
    from_slice-to_vec = laws.from_slice-to_vec;
    Stands = laws.Stands;
    Stands_same = laws.Stands_same;
    open-Stands = laws.open-Stands;
  }

  step-IsDurable :
      (last : MetadataSidecar) (w w' : Session I)
      → Step host laws through w w'
      → IsDurable host laws through last w
      → IsDurable host laws through last w'
  step-IsDurable last w w' (insert rec ran written) d =
      written-IsDurable host laws through last w w' written
        (λ stands.
          through.insert-Stands rec.record_id rec.embedding w.tenant.index w'.tenant.index
            written.items written.items'
            (insert-taken host.dim fixed rec w.tenant w'.tenant w.channels w'.channels ran) stands
            written.wrote)
        (insert-SameTenant host.dim fixed rec w.tenant w'.tenant w.channels w'.channels (ok tt) ran)
        d
  step-IsDurable last w w' (insert_refused rec on_disk requested ran kept) d =
      same-IsDurable host laws through last w w' kept
        (refused-SameTenant host.dim fixed rec w.tenant w'.tenant w.channels w'.channels on_disk
          requested ran)
        d
  step-IsDurable last w w' (delete id result ran kept) d =
      same-IsDurable host laws through last w w' kept
        (delete-SameTenant id w.tenant w'.tenant w.channels w'.channels result ran) d
  step-IsDurable last w w' (consolidate ran cs written) d =
      written-IsDurable host laws through last w w' written
        (λ stands.
          through.consolidate-Stands w.tenant.index w'.tenant.index written.items written.items'
            (consolidate-taken host.dim fixed w.tenant w'.tenant d.writable ran) stands
            written.wrote)
        (consolidate-SameTenant host.dim fixed w.tenant w'.tenant (ok tt) ran) d
  step-IsDurable last w w' (subscribe filter stream ran kept) d =
      same-IsDurable host laws through last w w' kept
        (subscribe-SameTenant filter stream w.tenant w'.tenant w.channels w'.channels ran) d
  step-IsDurable last w w' (flush_failed failure ran kept same cs) d =
      same-IsDurable host laws through last w w' kept
        (SameTenant-path w.tenant w'.tenant same, ap (λ (t : Tenant I). t.index) same) d

  flush-IsDurable :
      (last : MetadataSidecar) (w w' : Session I)
      → flush host w.tenant w.dirs ≡ (ok tt, w'.dirs)
      → w'.tenant ≡ w.tenant
      → IsDurable host laws through last w
      → IsDurable host laws through w.tenant.sidecar w'
  flush-IsDurable last w w' ran same d =
      let (json, encoded, placed) =
        flush-dirs host w.tenant w.dirs w'.dirs d.items d.sidecar.bytes d.writable d.sidecar.found
          d.sidecar.stored ran in
      let items' = set_item meta_name (file json) d.items in
      record {
        items = items';
        sidecar = record {
          found =
              ap (λ (s : Dirs). s w'.tenant.dir) placed
              ∙ ap (λ (t : Tenant I). update_dir w.tenant.dir (some items') w.dirs t.dir) same
              ∙ update_dir_self w.tenant.dir (some items') w.dirs;
          bytes = json;
          stored = find_item-set_item meta_name (file json) d.items;
          decoded = laws.from_slice-to_vec w.tenant.sidecar json encoded;
        };
        stands =
            subst (λ (t : Tenant I). laws.Stands t.index items') (sym same)
              (laws.Stands_same w.tenant.index d.items items' d.stands
                (SameFiles-set_item json d.items));
        writable = ap (λ (t : Tenant I). t.read_only) same ∙ d.writable;
        last_dim = d.sidecar_dim ∙ ap (λ (t : Tenant I). t.embedding_dim) (sym same);
        sidecar_dim =
            subst (λ (t : Tenant I). t.sidecar.embedding_dim ≡ t.embedding_dim) (sym same)
              d.sidecar_dim;
        index_dim =
            subst (λ (t : Tenant I). as_u32 (host.dim t.index) ≡ t.embedding_dim) (sym same)
              d.index_dim;
      }

  run-IsDurable :
      {w : Session I} {s : MetadataSidecar} {w' : Session I} {last : MetadataSidecar}
      → Run host laws through w s w' last
      → IsDurable host laws through s w
      → IsDurable host laws through last w'
  run-IsDurable start d = d
  run-IsDurable (then {v = v} {u = u} {last = last} run step) d =
      step-IsDurable last v u step (run-IsDurable run d)
  run-IsDurable (flushed {v = v} {u = u} {last = last} run ran same cs) d =
      flush-IsDurable last v u ran same (run-IsDurable run d)

  -- Where JSON is read back, an index keeps its files in step with what its calls succeed in and
  -- keeps its dimension, and a tenant that may write has its index's files and a sidecar in its
  -- directory: after any run of accepted inserts, inserts refused for their dimension, deletes,
  -- consolidations that succeed, subscriptions, flushes that succeed, and failed flushes that left
  -- the directories alone, the directory opens, once no access fails, with exactly the sidecar of the
  -- last flush that succeeded, and with an index that reads every vector as the one in memory does.
  pub run-open_tenant :
      (w w' : Session I) (s last : MetadataSidecar)
      → IsDurable host laws through s w
      → Run host laws through w s w' last
      → (t' : Tenant I) × ((open_tenant
            (calmed host)
            w'.tenant.dir
            w'.tenant.tenant_id
            w'.tenant.embedding_dim
            w'.dirs).0
          ≡ ok t')
        × (t'.sidecar ≡ last)
        × (t'.read_only ≡ false)
        × ((id : ℕ) → e.get id t'.index ≡ e.get id w'.tenant.index)
  run-open_tenant w w' s last d run =
      let d' = run-IsDurable run d in
      let there : HasSidecar (calmed host) w'.tenant.dir w'.dirs last d'.items = record {
        found = d'.sidecar.found;
        bytes = d'.sidecar.bytes;
        stored = d'.sidecar.stored;
        decoded = d'.sidecar.decoded;
      } in
      let (i', opened, alike) =
        open_tenant-ok (calmed host) HostLaws-calmed w'.tenant.dir w'.tenant.tenant_id
          w'.tenant.embedding_dim w'.dirs last d'.items w'.tenant.index (λ a. refl) there d'.stands
          d'.last_dim d'.index_dim in
      (
        new_tenant i' last w'.tenant.tenant_id w'.tenant.embedding_dim w'.tenant.dir false,
        opened,
        refl,
        refl,
        alike.0,
      )
