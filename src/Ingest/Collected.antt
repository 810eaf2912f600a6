-- ===== src/Ingest/Collected.antt =====
-- `collect_files` of crates/skeg-rigging-ingest/src/lib.rs, whose walk leaves excluded directories
-- out, against the list of all files.
use mathlib.Core.List.{append_assoc}
use skeg_rigging.Base.{
  ◌≡◌, refl, sym, ap, ◌∙◌, true, Bool-cases, inl, inr, Option, none, some, List, [], ◌∷◌, ◌++◌,
  filter, filter-append, any, arith, if_elim,
}
use skeg_rigging.Base.Sort.{sort}
use skeg_rigging.Text.{Str}
use skeg_rigging.Text.Paths.{FilePath, child, contains, starts_with, path_gt, path_text}
use skeg_rigging.Disk.{Node, Entries, nil, entry, sealed, special, node_at}
use skeg_rigging.Ingest.{
  IngestOptions, accepts, is_excluded, visit, walk, collect_node, collect_files,
}

-- The paths of all files at or below a path.
abbrev mutual
  files_at : FilePath → Node → List FilePath
  files_at path (Node.file text) = path ∷ []
  files_at path (Node.dir es) = files_in path es
  files_at path sealed = []
  files_at path special = []

  files_in : FilePath → Entries → List FilePath
  files_in dir nil = []
  files_in dir (entry name node es) = files_at (child dir name) node ++ files_in dir es

starts_with_longer : (t s more : Str) → starts_with t s ≡ true → starts_with t (s ++ more) ≡ true
unfolding starts_with
starts_with_longer [] s more h = refl
starts_with_longer (c ∷ t) [] more h = absurd (cc)
starts_with_longer (c ∷ t) (d ∷ s) more h = ground (arith, starts_with_longer t s more)

contains_longer : (t s more : Str) → contains t s ≡ true → contains t (s ++ more) ≡ true
unfolding contains starts_with
contains_longer [] [] [] h = refl
contains_longer [] [] (c ∷ more) h = refl
contains_longer (c ∷ t) [] more h = absurd (cc)
contains_longer t (c ∷ s) more h =
    ground (arith, starts_with_longer t (c ∷ s) more, contains_longer t s more)

-- The text of an entry's path goes on from that of its directory.
path_text-child :
    (dir : FilePath) (name : Str)
    → (more : Str) × (path_text (child dir name) ≡ path_text dir ++ more)
unfolding path_text
path_text-child [] name = (name, refl)
path_text-child (x ∷ []) name = (b'/' ∷ name, refl)
path_text-child (x ∷ y ∷ dir) name =
    let (more, same) = path_text-child (y ∷ dir) name in
    (more, ap (λ s. x ++ b'/' ∷ s) same ∙ sym (append_assoc x (b'/' ∷ path_text (y ∷ dir)) more))

any_longer :
    (es : List Str) (dir : FilePath) (name : Str)
    → any (λ e. contains e (path_text dir)) es ≡ true
    → any (λ e. contains e (path_text (child dir name))) es ≡ true
any_longer [] dir name h = absurd (cc)
any_longer (e ∷ es) dir name h =
    let (more, same) = path_text-child dir name in
    ground
      (arith, any_longer es dir name, contains_longer e (path_text dir) more, ap (contains e) same)

-- What is below an excluded directory is excluded.
is_excluded-child :
    (opts : IngestOptions) (dir : FilePath) (name : Str)
    → is_excluded dir opts ≡ true
    → is_excluded (child dir name) opts ≡ true
unfolding is_excluded
is_excluded-child opts dir name h = any_longer opts.excludes dir name h

abbrev accepted : IngestOptions → List FilePath → List FilePath
accepted opts = filter (λ path. accepts path opts)

mutual
  unfolding accepts

  accepted_none :
      (opts : IngestOptions) (path : FilePath) (n : Node)
      → is_excluded path opts ≡ true
      → accepted opts (files_at path n) ≡ []
  accepted_none opts path (Node.file text) h = rw h refl
  accepted_none opts path (Node.dir es) h = accepted_none_in opts path es h
  accepted_none opts path sealed h = refl
  accepted_none opts path special h = refl

  accepted_none_in :
      (opts : IngestOptions) (dir : FilePath) (es : Entries)
      → is_excluded dir opts ≡ true
      → accepted opts (files_in dir es) ≡ []
  accepted_none_in opts dir nil h = refl
  accepted_none_in opts dir (entry name n es) h =
      filter-append _ (files_at (child dir name) n) (files_in dir es)
      ∙ ap (λ xs. xs ++ accepted opts (files_in dir es))
          (accepted_none opts (child dir name) n (is_excluded-child opts dir name h))
      ∙ accepted_none_in opts dir es h

mutual
  unfolding visit walk

  visit-files_at :
      (opts : IngestOptions) (path : FilePath) (n : Node)
      → visit opts path n ≡ accepted opts (files_at path n)
  visit-files_at opts path (Node.file text) = refl
  visit-files_at opts path (Node.dir es) = walk-files_in opts path es
  visit-files_at opts path sealed = refl
  visit-files_at opts path special = refl

  walk-files_in :
      (opts : IngestOptions) (dir : FilePath) (es : Entries)
      → walk opts dir es ≡ accepted opts (files_in dir es)
  walk-files_in opts dir nil = refl
  walk-files_in opts dir (entry name n es) =
      let path = child dir name in
      let rest = walk-files_in opts dir es in
      let whole = filter-append (λ p. accepts p opts) (files_at path n) (files_in dir es) in
      elim (Bool-cases (is_excluded path opts)) [
        | inl left_out ↦ rw left_out (
            rest
            ∙ ap (λ xs. xs ++ accepted opts (files_in dir es))
                (sym (accepted_none opts path n left_out))
            ∙ sym whole)
        | inr here ↦ rw here (
            ap (λ xs. xs ++ walk opts dir es) (visit-files_at opts path n)
            ∙ ap (λ xs. accepted opts (files_at path n) ++ xs) rest
            ∙ sym whole)
      ]

abbrev pub files_of : FilePath → Option Node → List FilePath
files_of root none = []
files_of root (some n) = files_at root n

collect_node-files :
    (opts : IngestOptions) (root : FilePath) (n : Option Node)
    → collect_node opts root n ≡ sort path_gt (accepted opts (files_of root n))
unfolding collect_node visit sort
collect_node-files opts root none = refl
collect_node-files opts root (some (Node.file text)) =
    if_elim (λ xs. xs ≡ sort path_gt xs) (accepts root opts) (λ _. refl) (λ _. refl)
collect_node-files opts root (some (Node.dir es)) = ap (sort path_gt) (walk-files_in opts root es)
collect_node-files opts root (some sealed) = refl
collect_node-files opts root (some special) = refl

-- The collected files are exactly the files at or below the root that the options accept, sorted by
-- their paths: that the walk leaves an excluded directory out loses none of them.
pub collect_files-files_of :
    (disk : Node) (root : FilePath) (opts : IngestOptions)
    → collect_files disk root opts
      ≡ sort path_gt (filter (λ path. accepts path opts) (files_of root (node_at root disk)))
unfolding collect_files
collect_files-files_of disk root opts = collect_node-files opts root (node_at root disk)
