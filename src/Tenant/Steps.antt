-- ===== src/Tenant/Steps.antt =====
-- The calls on an open `Tenant` (crates/skeg-rigging-skeg/src/tenant.rs) as a step relation with the
-- directories: the index writes files of its own in an insert and in a consolidation, and a process
-- may end between any two calls.
use skeg_rigging.Base.{ℕ, ◌≡◌, Bool, List, some, Result, ok, err}
use skeg_rigging.Ids.{RecordId}
use skeg_rigging.Error.{TenantError, dim_mismatch}
use skeg_rigging.Event.{EventFilter}
use skeg_rigging.Event.Stream.{EventStream}
use skeg_rigging.Fs.{update_dir}
use skeg_rigging.Fs.Tree.{Items, find_item}
use skeg_rigging.Write.{NewRecord}
use skeg_rigging.Tenant
use skeg_rigging.Tenant.{Tenant}
use skeg_rigging.Tenant.Engine.{Index}
use skeg_rigging.Tenant.Sidecar.{MetadataSidecar}
use skeg_rigging.Tenant.Lifecycle.{Host, meta_name}
use skeg_rigging.Tenant.Lifecycle as Lifecycle
use skeg_rigging.Tenant.Reopen.{HostLaws}
use skeg_rigging.Tenant.Writer.{Session}

module _ {I F : Type 0} ⦃e : Index I F⦄ (host : Host I) (laws : HostLaws I F host) where
  -- An index keeps its files in step: `Writes i items items'` says that a call which leaves the
  -- handle `i` may make `items'` of what is in its directory. After an insert or a consolidation that
  -- succeeds the directory holds what the handle has written, and no call touches `meta.json`.
  pub record WritesThrough : Type 1 where
    pub Writes : I → Items → Items → Type 0
    pub insert-Stands :
        (id : ℕ) (v : List F) (i i' : I) (items items' : Items)
        → e.insert id v i ≡ (ok tt, i')
        → laws.Stands i items
        → Writes i' items items'
        → laws.Stands i' items'
    pub consolidate-Stands :
        (i i' : I) (items items' : Items)
        → e.consolidate i ≡ (ok tt, i')
        → laws.Stands i items
        → Writes i' items items'
        → laws.Stands i' items'
    pub meta_kept :
        (i' : I) (items items' : Items)
        → Writes i' items items'
        → find_item meta_name items' ≡ find_item meta_name items

  module _ (through : WritesThrough) where
    -- What the index leaves in the tenant's directory.
    pub record IsWritten (w w' : Session I) : Type 0 where
      pub items : Items
      pub items' : Items
      pub found : w.dirs w.tenant.dir ≡ some items
      pub left : w'.dirs ≡ update_dir w.tenant.dir (some items') w.dirs
      pub wrote : through.Writes w'.tenant.index items items'

    -- A call on the tenant. An insert is one that is accepted or one that is refused for its
    -- dimension, and a failed flush one that left the directories as they were.
    pub data Step (w w' : Session I) : Type 0 where
      insert :
          (rec : NewRecord F)
          → Tenant.insert rec w.tenant w.channels ≡ (ok tt, w'.tenant, w'.channels)
          → IsWritten w w'
          → Step w w'
      insert_refused :
          (rec : NewRecord F) (on_disk requested : ℕ)
          → Tenant.insert rec w.tenant w.channels
            ≡ (err (dim_mismatch on_disk requested), w'.tenant, w'.channels)
          → w'.dirs ≡ w.dirs
          → Step w w'
      delete :
          (id : RecordId) (result : Result TenantError Bool)
          → Tenant.delete id w.tenant w.channels ≡ (result, w'.tenant, w'.channels)
          → w'.dirs ≡ w.dirs
          → Step w w'
      consolidate :
          Tenant.consolidate F w.tenant ≡ (ok tt, w'.tenant)
          → w'.channels ≡ w.channels
          → IsWritten w w'
          → Step w w'
      subscribe :
          (filter : EventFilter) (stream : EventStream)
          → Tenant.subscribe filter w.tenant w.channels ≡ (stream, w'.tenant, w'.channels)
          → w'.dirs ≡ w.dirs
          → Step w w'
      flush_failed :
          (failure : TenantError)
          → Lifecycle.flush host w.tenant w.dirs ≡ (err failure, w'.dirs)
          → w'.dirs ≡ w.dirs
          → w'.tenant ≡ w.tenant
          → w'.channels ≡ w.channels
          → Step w w'

    -- A run of calls, with the sidecar of the last flush that succeeded.
    pub data Run (w : Session I) (s : MetadataSidecar) : Session I → MetadataSidecar → Type 0 where
      start : Run w s w s
      then : {v u : Session I} {last : MetadataSidecar} → Run w s v last → Step v u → Run w s u last
      flushed :
          {v u : Session I} {last : MetadataSidecar}
          → Run w s v last
          → Lifecycle.flush host v.tenant v.dirs ≡ (ok tt, u.dirs)
          → u.tenant ≡ v.tenant
          → u.channels ≡ v.channels
          → Run w s u v.tenant.sidecar
