-- ===== src/Tenant/Ingested.antt =====
-- What `ingest_tree` (crates/skeg-rigging-ingest/src/lib.rs) leaves in a `Tenant`
-- (crates/skeg-rigging-skeg/src/tenant.rs) that it writes through `TenantWrite`.
use mathlib.Core.Path.{subst}
use skeg_rigging.Base.{
  ℕ, zero, suc, ◌+◌, ◌≤◌, ◌<◌, ◌^◌, ◌≡◌, refl, sym, ap, ◌∙◌, false, some, List, [], ◌∷◌, Result, ok,
  map, All, add_u64, arith, ◌==◌, ==_iff, if◌then◌else◌,
}
use skeg_rigging.Base.Keyed
use skeg_rigging.Ids.{RecordId}
use skeg_rigging.Error.{TenantError}
use skeg_rigging.Write.{NewRecord, TenantWrite, Embed}
use skeg_rigging.Ingest.Ids.{consecutive}
use skeg_rigging.Ingest.Chunks.{insert_all}
use skeg_rigging.Ingest.Plan.{plan_files, ingest_tree-planned}
use skeg_rigging.Ingest.{IngestOptions, IngestStats, ingest_tree, collect_files}
use skeg_rigging.Disk.{Node}
use skeg_rigging.Text.Paths.{FilePath}
use skeg_rigging.Fs.Clones.{NoFaults}
use skeg_rigging.Tenant.{Tenant, entry, insert, emit}
use skeg_rigging.Tenant.Complete.{insert-inv}
use skeg_rigging.Tenant.Engine.{Index}
use skeg_rigging.Tenant.Lifecycle.{Host, read_from_path, flush}
use skeg_rigging.Tenant.Flushed.{flush-read_from_path}
use skeg_rigging.Tenant.Sidecar.{MetadataSidecar, entry_key, get}
use skeg_rigging.Tenant.Writer.{Session, tenant_writer}

abbrev pub new_key : {F : Type 0} → NewRecord F → ℕ
new_key r = r.record_id

-- Ids in a row that do not pass the end of a word are all different.
contains-consecutive :
    {F : Type 0} (records : List (NewRecord F)) (n start id : ℕ)
    → map new_key records ≡ consecutive n start
    → id < start
    → start + n ≤ 2 ^ 64
    → Keyed.contains new_key id records ≡ false
contains-consecutive [] n start id h before small = refl
contains-consecutive (r ∷ records) zero start id h before small = cc
contains-consecutive (r ∷ []) (suc zero) start id h before small =
    ground (arith, ==_iff r.record_id id)
contains-consecutive (r ∷ s ∷ records) (suc zero) start id h before small = absurd (cc)
contains-consecutive (r ∷ records) (suc (suc n)) start id h before small =
    ground (arith, ==_iff r.record_id id, contains-consecutive records (suc n) (add_u64 start 1) id)

consecutive-Distinct :
    {F : Type 0} (records : List (NewRecord F)) (n start : ℕ)
    → map new_key records ≡ consecutive n start
    → start + n ≤ 2 ^ 64
    → Keyed.Distinct new_key records
consecutive-Distinct [] n start h small = tt
consecutive-Distinct (r ∷ records) zero start h small = cc
consecutive-Distinct (r ∷ []) (suc zero) start h small = (refl, tt)
consecutive-Distinct (r ∷ s ∷ records) (suc zero) start h small = absurd (cc)
consecutive-Distinct (r ∷ records) (suc (suc n)) start h small = (
  ground (arith, contains-consecutive records (suc n) (add_u64 start 1) r.record_id),
  consecutive-Distinct records (suc n) (add_u64 start 1) (ground arith) (omega arith),
)

module _ {I F X : Type 0} ⦃e : Index I F⦄ (host : Host I) (embedder : Embed F X) where
  abbrev writer : TenantWrite (Session I) F TenantError
  writer = tenant_writer host

  insert_all-step :
      (r : NewRecord F) (rs : List (NewRecord F)) (w w' : Session I)
      → insert_all writer embedder (r ∷ rs) w ≡ (ok tt, w')
      → ((insert r w.tenant w.channels).0 ≡ ok tt)
        × (insert_all writer embedder rs (writer.insert r w).1 ≡ (ok tt, w'))
  insert_all-step r rs w w' h = ground arith

  insert-lookup :
      (r : NewRecord F) (w : Session I) (id : RecordId)
      → (insert r w.tenant w.channels).0 ≡ ok tt
      → get id (writer.insert r w).1.tenant.sidecar
        ≡ (if r.record_id == id then some (entry r) else get id w.tenant.sidecar)
  unfolding get
  insert-lookup r w id h =
      let t' = (writer.insert r w).1.tenant in
      let cs' = (writer.insert r w).1.channels in
      let (_, records, _, _) =
        insert-inv F r w.tenant t' w.channels cs' (ap (λ x. (x, t', cs')) h) in
      ap (Keyed.lookup entry_key id) records
      ∙ Keyed.lookup-store entry_key (entry r) w.tenant.sidecar.records id

  insert_all_others :
      (rs : List (NewRecord F)) (w w' : Session I) (id : RecordId)
      → insert_all writer embedder rs w ≡ (ok tt, w')
      → Keyed.contains new_key id rs ≡ false
      → get id w'.tenant.sidecar ≡ get id w.tenant.sidecar
  insert_all_others [] w w' id h fresh =
      ap (λ (o : Result TenantError (Unit {0}) × Session I). get id o.1.tenant.sidecar) (sym h)
  insert_all_others (r ∷ rs) w w' id h fresh =
      let (done, more) = insert_all-step r rs w w' h in
      insert_all_others rs (writer.insert r w).1 w' id more (ground arith)
      ∙ insert-lookup r w id done
      ∙ ground arith

  -- One insert after another stores each of some records with different ids.
  insert_all-get :
      (rs : List (NewRecord F)) (w w' : Session I)
      → insert_all writer embedder rs w ≡ (ok tt, w')
      → Keyed.Distinct new_key rs
      → All (λ r. get r.record_id w'.tenant.sidecar ≡ some (entry r)) rs
  insert_all-get [] w w' h d = tt
  insert_all-get (r ∷ rs) w w' h d =
      let (done, more) = insert_all-step r rs w w' h in
      (
        insert_all_others rs (writer.insert r w).1 w' r.record_id more d.0
            ∙ insert-lookup r w r.record_id done
            ∙ ground (arith, ==_iff r.record_id r.record_id),
        insert_all-get rs (writer.insert r w).1 w' more d.1,
      )

  insert-read_only :
      (r : NewRecord F) (w : Session I)
      → (writer.insert r w).1.tenant.read_only ≡ w.tenant.read_only
  unfolding insert emit
  insert-read_only r w = ground arith

  insert_all-read_only :
      (rs : List (NewRecord F)) (w w' : Session I)
      → insert_all writer embedder rs w ≡ (ok tt, w')
      → w'.tenant.read_only ≡ w.tenant.read_only
  insert_all-read_only [] w w' h =
      ap (λ (o : Result TenantError (Unit {0}) × Session I). o.1.tenant.read_only) (sym h)
  insert_all-read_only (r ∷ rs) w w' h =
      insert_all-read_only rs (writer.insert r w).1 w' (insert_all-step r rs w w' h).1
      ∙ insert-read_only r w

  -- With no fault, and with JSON that is read back as it was written: a run of the ingest that
  -- succeeds on a tenant that may write, and whose ids fit a word, leaves the metadata of every
  -- planned record under its id, and the tenant's directory has the sidecar that says so.
  pub ingest_tree-get :
      (json : (s : MetadataSidecar) (bytes : List ℕ)
        → host.to_vec s ≡ some bytes
        → host.from_slice bytes ≡ some s)
      (disk : Node) (root : FilePath) (opts : IngestOptions) (w w'' : Session I)
      (stats : IngestStats) (reports : List IngestStats)
      → NoFaults host.faults
      → w.tenant.read_only ≡ false
      → opts.start_id + stats.chunks ≤ 2 ^ 64
      → ingest_tree writer embedder disk root opts w ≡ (ok stats, reports, w'')
      → (records : List (NewRecord F)) × (plan_files writer embedder disk root opts opts.start_id
            (collect_files disk root opts)
          ≡ ok records)
        × All (λ r. get r.record_id w''.tenant.sidecar ≡ some (entry r)) records
        × (read_from_path host w''.tenant.dir w''.dirs ≡ (ok w''.tenant.sidecar, w''.dirs))
  ingest_tree-get json disk root opts w w'' stats reports calm writable small h =
      let (_, n, w', (records, planned, inserted, ids, _), flushed, _, chunks, _) =
        ingest_tree-planned writer embedder disk root opts w w'' stats reports h in
      let same : w'.tenant ≡ w''.tenant =
        ap (λ (o : Result TenantError (Unit {0}) × Session I). o.1.tenant) flushed in
      let run : flush host w''.tenant w'.dirs ≡ (ok tt, w''.dirs) =
        subst (λ t. flush host t w'.dirs ≡ (ok tt, w''.dirs)) same
          (ap (λ (o : Result TenantError (Unit {0}) × Session I). (o.0, o.1.dirs)) flushed) in
      (
        records,
        planned,
        subst (λ (t : Tenant I). All (λ r. get r.record_id t.sidecar ≡ some (entry r)) records) same
            (insert_all-get records w w' inserted
              (consecutive-Distinct records n opts.start_id ids (omega arith))),
        flush-read_from_path host w''.tenant w'.dirs w''.dirs json calm
            (ap (λ (t : Tenant I). t.read_only) (sym same)
              ∙ insert_all-read_only records w w' inserted
              ∙ writable)
            run,
      )
