-- ===== src/Tests/Trees.antt =====
-- A small directory, ingested into a list of records.
use skeg_rigging.Base.{ℕ, ◌++◌, ◌≡◌, refl, some, List, [], ◌∷◌, ok, length}
use skeg_rigging.Text.{Str, codes, is_whitespace}
use skeg_rigging.Text.Paths.{FilePath}
use skeg_rigging.Disk.{Node, nil, entry, read_to_string}
use skeg_rigging.Write.{NewRecord, TenantWrite, Embed}
use skeg_rigging.Chunk.{chunk, for_ext, word_count}
use skeg_rigging.Ingest.{
  ingest_files, ingest_file, ingest_chunks, IngestOptions, IngestStats, default_options,
  collect_files, ingest_tree,
}
use skeg_rigging.Ingest.Ids.{skip}
use skeg_rigging.Base.{filter}
use skeg_rigging.Base.Sort.{sort}
use skeg_rigging.Text.Paths.{path_gt}
use skeg_rigging.Disk.{node_at, read_to_string}
use skeg_rigging.Ingest.{accepts}
use skeg_rigging.Ingest.Collected.{files_of, collect_files-files_of}
use skeg_rigging.Ingest.Order.{ingest_tree-Perm}
use mathlib.Core.List.{Perm}
use mathlib.Core.List.Perm
use skeg_rigging.Ingest.Chunks.{Wrote}
use skeg_rigging.Ingest.Plan.{plan_files, ingest_tree-planned}

abbrev pub list_writer : TenantWrite (List (NewRecord ℕ)) ℕ ℕ
list_writer = record {
  insert = λ r w. (ok tt, w ++ r ∷ []);
  flush = λ w. (ok tt, w);
  embedding_dim = λ w. 2;
}

abbrev pub length_embedder : Embed ℕ ℕ
length_embedder = record {
  dim = 2;
  passage = λ s. ok (length s ∷ 0 ∷ []);
  query = λ s. ok (length s ∷ 0 ∷ []);
}

abbrev disk : Node
disk = Node.dir (
    entry (codes "r")
      (Node.dir (
        entry (codes "b.md") (Node.file (some (codes "x\n\ny"))) (
          entry (codes ".git") (Node.dir (entry (codes "c.md") (Node.file (some (codes "z"))) nil))
            (entry (codes "a.md") (Node.file (some (codes "u v"))) nil))))
      nil)

abbrev pub options : IngestOptions
options = record default_options { start_id = 10 }

abbrev pub root : FilePath
root = codes "r" ∷ []

collect_files-files_of_example :
    collect_files disk root options
    ≡ sort path_gt (filter (λ path. accepts path options) (files_of root (node_at root disk)))
collect_files-files_of_example = collect_files-files_of disk root options

-- The same files in another order.
abbrev shuffled : Node
shuffled = Node.dir (
    entry (codes "r")
      (Node.dir (
        entry (codes "a.md") (Node.file (some (codes "u v"))) (
          entry (codes ".git") (Node.dir (entry (codes "c.md") (Node.file (some (codes "z"))) nil))
            (entry (codes "b.md") (Node.file (some (codes "x\n\ny"))) nil))))
      nil)

abbrev in_root : Str → FilePath
in_root name = codes "r" ∷ name ∷ []

abbrev hidden : FilePath
hidden = codes "r" ∷ codes ".git" ∷ codes "c.md" ∷ []

abbrev a_md : FilePath
a_md = in_root (codes "a.md")

abbrev b_md : FilePath
b_md = in_root (codes "b.md")

shuffled-Perm : Perm (b_md ∷ hidden ∷ a_md ∷ []) (a_md ∷ hidden ∷ b_md ∷ [])
shuffled-Perm =
    Perm.trans (Perm.swap _ _ _) (Perm.trans (Perm.cons _ (Perm.swap _ _ _)) (Perm.swap _ _ _))

ingest_tree-Perm_example :
    ingest_tree list_writer length_embedder disk root options []
    ≡ ingest_tree list_writer length_embedder shuffled root options []
unfolding collect_files read_to_string
ingest_tree-Perm_example =
    ingest_tree-Perm list_writer length_embedder disk shuffled root options [] shuffled-Perm
      (refl, (refl, tt))

two_files :
    collect_files disk root options
    ≡ (codes "r" ∷ codes "a.md" ∷ []) ∷ (codes "r" ∷ codes "b.md" ∷ []) ∷ []
unfolding collect_files
two_files = refl

abbrev written : List (NewRecord ℕ)
written = (ingest_tree list_writer length_embedder disk root options []).2

abbrev reported : List IngestStats
reported = (ingest_tree list_writer length_embedder disk root options []).1

abbrev counted : IngestStats
counted = record { files = 2; chunks = 3; words = 4; next_id = 13 }

three_chunks :
    ingest_tree list_writer length_embedder disk root options [] ≡ (ok counted, reported, written)
unfolding ingest_tree collect_files ingest_files ingest_file read_to_string ingest_chunks chunk
    for_ext is_whitespace word_count
three_chunks = refl

ingest_tree-planned_example :
    (length_embedder.dim ≡ list_writer.embedding_dim [])
    × (n : ℕ) × (w : List (NewRecord ℕ)) × Wrote list_writer length_embedder
        (plan_files list_writer length_embedder disk root options 10
          (collect_files disk root options))
        10
        n
        []
        w
    × (list_writer.flush w ≡ (ok tt, written))
    × (counted.next_id ≡ skip n 10)
    × (counted.chunks ≡ n)
    × (counted.files ≡ length (collect_files disk root options))
ingest_tree-planned_example =
    ingest_tree-planned list_writer length_embedder disk root options [] written counted reported
      three_chunks
