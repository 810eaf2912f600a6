-- ===== src/Ingest/Files.antt =====
-- Which files crates/skeg-rigging-ingest/src/lib.rs collects, and the path that it records.
use skeg_rigging.Base.{
  ◌≡◌, refl, ap, true, Option, none, some, List, [], ◌∷◌, ◌++◌, All, All-append, if_elim, arith,
}
use skeg_rigging.Base.Sort.{All-sort}
use skeg_rigging.Text.Paths.{text_eq_refl, FilePath, child, strip_prefix, path_gt, path_text}
use skeg_rigging.Disk.{Node, Entries, nil, entry, sealed, special, node_at}
use skeg_rigging.Ingest.{
  IngestOptions, accepts, is_excluded, visit, walk, collect_node, collect_files, relpath, rel_or,
}

abbrev Accepted : IngestOptions → List FilePath → Type 0
Accepted opts = All (λ path. accepts path opts ≡ true)

mutual
  unfolding visit walk

  visit-Accepted :
      (opts : IngestOptions) (path : FilePath) (n : Node) → Accepted opts (visit opts path n)
  visit-Accepted opts path (Node.file text) =
      if_elim (Accepted opts) (accepts path opts) (λ accepted. (accepted, tt)) (λ _. tt)
  visit-Accepted opts path (Node.dir es) = walk-Accepted opts path es
  visit-Accepted opts path sealed = tt
  visit-Accepted opts path special = tt

  walk-Accepted :
      (opts : IngestOptions) (path : FilePath) (es : Entries) → Accepted opts (walk opts path es)
  walk-Accepted opts path nil = tt
  walk-Accepted opts path (entry name n es) =
      All-append _ _ (walk opts path es)
        (if_elim (Accepted opts) (is_excluded (child path name) opts) (λ _. tt)
          (λ _. visit-Accepted opts (child path name) n))
        (walk-Accepted opts path es)

collect_node-Accepted :
    (opts : IngestOptions) (root : FilePath) (n : Option Node)
    → Accepted opts (collect_node opts root n)
unfolding collect_node
collect_node-Accepted opts root none = tt
collect_node-Accepted opts root (some (Node.file text)) = visit-Accepted opts root (Node.file text)
collect_node-Accepted opts root (some (Node.dir es)) =
    All-sort path_gt _ (walk opts root es) (walk-Accepted opts root es)
collect_node-Accepted opts root (some sealed) = tt
collect_node-Accepted opts root (some special) = tt

-- Every collected file is one that the options accept.
collect_files-Accepted :
    (disk : Node) (root : FilePath) (opts : IngestOptions)
    → Accepted opts (collect_files disk root opts)
unfolding collect_files
collect_files-Accepted disk root opts = collect_node-Accepted opts root (node_at root disk)

strip_prefix_self : (root : FilePath) → strip_prefix root root ≡ some []
unfolding strip_prefix
strip_prefix_self [] = refl
strip_prefix_self (x ∷ root) = ground (arith, text_eq_refl x, strip_prefix_self root)

strip_prefix-append : (root rest : FilePath) → strip_prefix root (root ++ rest) ≡ some rest
unfolding strip_prefix
strip_prefix-append [] rest = refl
strip_prefix-append (x ∷ root) rest = ground (arith, text_eq_refl x, strip_prefix-append root rest)

-- Below the root the recorded path is the rest of the file's path; so for a root that is itself the
-- file it is empty.
relpath-append :
    (root rest : FilePath)
    → (relpath root (root ++ rest) ≡ path_text rest) × (relpath root root ≡ [])
unfolding relpath rel_or path_text
relpath-append root rest = (
  ap (λ o. rel_or o (root ++ rest)) (strip_prefix-append root rest),
  ap (λ o. rel_or o root) (strip_prefix_self root),
)
