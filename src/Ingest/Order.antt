-- ===== src/Ingest/Order.antt =====
-- That a run of crates/skeg-rigging-ingest/src/lib.rs does not depend on the order in which
-- `read_dir` lists a directory.
use native.Mathlib.Nat.{ℕ_set}
use mathlib.Core.List.{Perm}
use mathlib.Core.List.{is_set}
use skeg_rigging.Base.{All, ◌+◌, ◌≡◌, refl, ap, ◌∙◌, sym, List, [], ◌∷◌, ◌++◌, arith}
use skeg_rigging.Base.Sort.Unique.{sort-Perm, Perm-filter}
use skeg_rigging.Text.Order.{path_gt-Linear}
use skeg_rigging.Text.Paths.{FilePath, path_gt}
use skeg_rigging.Disk.{Node, node_at, read_to_string}
use skeg_rigging.Write.{TenantWrite, Embed}
use skeg_rigging.Ingest.{
  IngestOptions, IngestStats, first_stats, accepts, collect_files, ingest_file, ingest_files,
  ingest_tree,
}
use skeg_rigging.Ingest.Collected.{files_of, collect_files-files_of}

-- Two disks that have the same files at or below the root, listed in any order, are collected
-- alike.
collect_files-Perm :
    (disk disk' : Node) (root : FilePath) (opts : IngestOptions)
    → Perm (files_of root (node_at root disk)) (files_of root (node_at root disk'))
    → collect_files disk root opts ≡ collect_files disk' root opts
collect_files-Perm disk disk' root opts p =
    collect_files-files_of disk root opts
    ∙ sort-Perm path_gt path_gt-Linear (is_set (is_set ℕ_set)) _ _
        (Perm-filter (λ path. accepts path opts) p)
    ∙ sym (collect_files-files_of disk' root opts)

-- A file with the same text on both.
abbrev pub SameText : Node → Node → FilePath → Type 0
SameText disk disk' path = read_to_string path disk ≡ read_to_string path disk'

module _ {W F E X : Type 0} (writer : TenantWrite W F E) (embedder : Embed F X) (disk disk' : Node)
    (root : FilePath) (opts : IngestOptions) where
  ingest_file_alike :
      (path : FilePath) (stats : IngestStats) (w : W)
      → SameText disk disk' path
      → ingest_file writer embedder disk root path opts stats w
        ≡ ingest_file writer embedder disk' root path opts stats w
  unfolding ingest_file
  ingest_file_alike path stats w same = ground arith

  ingest_files_alike :
      (paths : List FilePath) (stats : IngestStats) (reports : List IngestStats) (w : W)
      → All (SameText disk disk') paths
      → ingest_files writer embedder disk root opts paths stats reports w
        ≡ ingest_files writer embedder disk' root opts paths stats reports w
  unfolding ingest_files
  ingest_files_alike [] stats reports w same = refl
  ingest_files_alike (path ∷ paths) stats reports w same =
      let (result, stats', w') = ingest_file writer embedder disk' root path opts stats w in
      let counted = record stats' { files = stats'.files + 1 } in
      ground (
        arith,
        ingest_file_alike path stats w same.0,
        ingest_files_alike paths counted (reports ++ counted ∷ []) w' same.1,
      )

  -- Two disks with the same files at or below the root, in whatever order their directories list
  -- them, and with the same texts in those that are
  -- collected, are ingested alike: the same result, the same reports and
  -- the same state of the writer, so that also the ids are the same.
  pub ingest_tree-Perm :
      (w : W)
      → Perm (files_of root (node_at root disk)) (files_of root (node_at root disk'))
      → All (SameText disk disk') (collect_files disk' root opts)
      → ingest_tree writer embedder disk root opts w ≡ ingest_tree writer embedder disk' root opts w
  unfolding ingest_tree
  ingest_tree-Perm w p same =
      let files = collect_files disk' root opts in
      let run : ingest_files writer embedder disk root opts (collect_files disk root opts)
            (first_stats opts) [] w
          ≡ ingest_files writer embedder disk' root opts files (first_stats opts) [] w =
        ap (λ paths. ingest_files writer embedder disk root opts paths (first_stats opts) [] w)
          (collect_files-Perm disk disk' root opts p)
        ∙ ingest_files_alike files (first_stats opts) [] w same in
      ground (arith, run)
