-- ===== src/Tests/Ingests.antt =====
-- One file, ingested into the tenant of `Lifecycles` without its records.
use skeg_rigging.Base.{ℕ, ◌≡◌, refl, some, List, [], ok, arith, All}
use skeg_rigging.Text.{codes}
use skeg_rigging.Text.Paths.{path_eq}
use skeg_rigging.Fs.Tree.{find_item}
use skeg_rigging.Tenant.{Tenant}
use skeg_rigging.Tenant.Lifecycle.{write_to_path, flush}
use skeg_rigging.Base.Keyed
use skeg_rigging.Fs.{write_file}
use skeg_rigging.Disk
use skeg_rigging.Disk.{Node, read_to_string}
use skeg_rigging.Write.{NewRecord}
use skeg_rigging.Chunk.{chunk, for_ext, word_count}
use skeg_rigging.Text.{is_whitespace}
use skeg_rigging.Ingest.{
  ingest_files, ingest_file, ingest_chunks, IngestStats, collect_files, ingest_tree,
}
use skeg_rigging.Ingest.Plan.{plan_files}
use skeg_rigging.Tenant
use skeg_rigging.Tenant.{entry}
use skeg_rigging.Tenant.Sidecar.{get}
use skeg_rigging.Tenant.Lifecycle.{read_from_path}
use skeg_rigging.Tenant.Writer.{Session, tenant_writer}
use skeg_rigging.Tenant.Ingested.{ingest_tree-get}
use skeg_rigging.Tests.Tenants.{two_channels}
use skeg_rigging.Tests.Trees.{length_embedder, options, root}
use skeg_rigging.Tests.Hosts.{Index-ids, host, HostLaws-ids}
use skeg_rigging.Tests.Lifecycles.{id, dirs, tenant}

abbrev disk : Node
disk = Node.dir (
    Disk.entry (codes "r")
      (Node.dir (Disk.entry (codes "a.md") (Node.file (some (codes "u v"))) Disk.nil)) Disk.nil)

abbrev before : Session (List ℕ)
before = record {
  tenant = record tenant {
    index = [];
    sidecar = record { tenant_id = id; embedding_dim = 2; records = [] };
  };
  channels = two_channels;
  dirs = dirs;
}

abbrev after : Session (List ℕ)
after = (ingest_tree (tenant_writer host) length_embedder disk root options before).2

abbrev reports : List IngestStats
reports = (ingest_tree (tenant_writer host) length_embedder disk root options before).1

abbrev counted : IngestStats
counted = record { files = 1; chunks = 1; words = 2; next_id = 11 }

one_chunk :
    ingest_tree (tenant_writer host) length_embedder disk root options before
    ≡ (ok counted, reports, after)
unfolding ingest_tree collect_files ingest_files ingest_file read_to_string ingest_chunks chunk
    for_ext is_whitespace word_count Tenant.insert flush Tenant.emit write_to_path Keyed.store
    write_file path_eq find_item
one_chunk = refl

ingest_tree-get_example :
    (records : List (NewRecord ℕ)) × (plan_files
        (tenant_writer host)
        length_embedder
        disk
        root
        options
        10
        (collect_files disk root options)
      ≡ ok records)
    × All (λ r. get r.record_id after.tenant.sidecar ≡ some (entry r)) records
    × (read_from_path host after.tenant.dir after.dirs ≡ (ok after.tenant.sidecar, after.dirs))
ingest_tree-get_example =
    ingest_tree-get host length_embedder HostLaws-ids.from_slice-to_vec disk root options before
      after counted reports (λ a. refl) refl (omega arith) one_chunk
