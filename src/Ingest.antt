-- ===== src/Ingest.antt =====
-- crates/skeg-rigging-ingest/src/lib.rs: the files below a path, cut into chunks, embedded and
-- written through `TenantWrite`.
pub mod Files
pub mod Collected
pub mod Order
pub mod Ids
pub mod Chunks
pub mod Plan
pub mod Watch
use skeg_rigging.Base.{
  ℕ, suc, ◌+◌, Bool, true, false, ◌&&◌, not, Option, none, some, List, [], ◌∷◌, ◌++◌, Result, ok,
  err, any, map, ◌==◌, add_u64, if◌then◌else◌,
}
use skeg_rigging.Base.Sort.{sort}
use skeg_rigging.Text.{Str, codes, as_bytes, text_eq}
use skeg_rigging.Text.Decimal.{decimal}
use skeg_rigging.Text.Paths.{
  FilePath, path_text, child, strip_prefix, file_name, extension, contains, path_gt,
}
use skeg_rigging.Disk.{Node, Entries, sealed, special, nil, entry, node_at, read_to_string}
use skeg_rigging.Write.{NewRecord, TenantWrite, Embed}
use skeg_rigging.Chunk.{Chunk, ChunkMode, for_ext, word_count, chunk}

pub record IngestOptions : Type 0 where
  pub exts : List Str
  pub excludes : List Str
  pub shareable : Bool
  pub tags : List Str
  pub start_id : ℕ

abbrev pub default_options : IngestOptions
default_options = record {
  exts = [];
  excludes = map codes ("/.git/" ∷ "/target/" ∷ "/node_modules/" ∷ "/.venv/" ∷ "/dist/" ∷ []);
  shareable = false;
  tags = [];
  start_id = 0;
}

pub record IngestStats : Type 0 where
  pub files : ℕ
  pub chunks : ℕ
  pub words : ℕ
  pub next_id : ℕ

-- What a run fails with, in place of the text of its `anyhow` error.
pub data IngestError (E X : Type 0) : Type 0 where
  dims_differ : (embed writer : ℕ) → IngestError E X
  read : FilePath → IngestError E X
  embed : X → IngestError E X
  insert : ℕ → E → IngestError E X
  flush : E → IngestError E X

abbrev pub or_else : Option Str → Str → Str
or_else (some s) other = s
or_else none other = other

-- The text of the path below the root, else the file's name, else the whole path.
rel_or : Option FilePath → FilePath → Str
rel_or (some p) file = path_text p
rel_or none file = or_else (file_name file) (path_text file)

unfoldable pub relpath : FilePath → FilePath → Str
unfolding strip_prefix path_text file_name rel_or
relpath root file = rel_or (strip_prefix root file) file

unfoldable pub is_excluded : FilePath → IngestOptions → Bool
unfolding path_text contains
is_excluded file opts = any (λ e. contains e (path_text file)) opts.excludes

is_wanted : Option Str → List Str → Bool
is_wanted ext [] = true
is_wanted none (e ∷ exts) = false
is_wanted (some ext) (e ∷ exts) = any (λ x. text_eq x ext) (e ∷ exts)

unfoldable pub accepts : FilePath → IngestOptions → Bool
unfolding is_excluded is_wanted extension text_eq
accepts file opts = if is_excluded file opts then false else is_wanted (extension file) opts.exts

-- The loop of `walk`, over a node with its path and over what a directory lists.
unfoldable mutual
  unfolding accepts is_excluded

  pub visit : IngestOptions → FilePath → Node → List FilePath
  visit opts path (Node.file text) = if accepts path opts then path ∷ [] else []
  visit opts path (Node.dir es) = walk opts path es
  visit opts path sealed = []
  visit opts path special = []

  pub walk : IngestOptions → FilePath → Entries → List FilePath
  walk opts dir nil = []
  walk opts dir (entry name node es) =
      let path = child dir name in
      (if is_excluded path opts then [] else visit opts path node) ++ walk opts dir es

-- `root.is_file()` decides between the path itself and the walk below it.
unfoldable pub collect_node : IngestOptions → FilePath → Option Node → List FilePath
unfolding visit walk sort
collect_node opts root (some (Node.file text)) = visit opts root (Node.file text)
collect_node opts root (some (Node.dir es)) = sort path_gt (walk opts root es)
collect_node opts root _ = []

unfoldable pub collect_files : Node → FilePath → IngestOptions → List FilePath
unfolding collect_node node_at path_gt
collect_files disk root opts = collect_node opts root (node_at root disk)

-- `format!("src:{rel}:{}-{}", …)`
abbrev pub src_tag : Str → Chunk → Str
src_tag rel c =
    codes "src:" ++ (rel ++ (codes ":" ++ (decimal c.line_lo ++ (codes "-" ++ decimal c.line_hi))))

abbrev pub record_of : {F : Type 0} → IngestOptions → Str → ℕ → Chunk → List F → NewRecord F
record_of opts rel id c v = record {
  record_id = id;
  embedding = v;
  shareable = opts.shareable;
  tags = opts.tags ++ src_tag rel c ∷ [];
  payload = as_bytes c.text;
}

-- `chunks` and `words`, and `files` below, are `usize` in the source and without bound here.
abbrev pub count_chunk : Chunk → IngestStats → IngestStats
count_chunk c stats = record stats {
  chunks = stats.chunks + 1;
  words = stats.words + word_count c.text;
  next_id = add_u64 stats.next_id 1;
}

abbrev pub first_stats : IngestOptions → IngestStats
first_stats opts = record { files = 0; chunks = 0; words = 0; next_id = opts.start_id }

module _ {W F E X : Type 0} (writer : TenantWrite W F E) (embedder : Embed F X) where
  -- The loop over the chunks of one file. Writes and counts made before an error stay.
  unfoldable pub ingest_chunks :
      Str
      → IngestOptions
      → List Chunk
      → IngestStats
      → W
      → Result (IngestError E X) (Unit {0}) × IngestStats × W
  ingest_chunks rel opts [] stats w = (ok tt, stats, w)
  ingest_chunks rel opts (c ∷ cs) stats w = elim (embedder.passage c.text) [
    | err e ↦ (err (embed e), stats, w)
    | ok v ↦
        let (result, w') = writer.insert (record_of opts rel stats.next_id c v) w in
        elim result [
          | err e ↦ (err (insert stats.next_id e), stats, w')
          | ok _ ↦ ingest_chunks rel opts cs (count_chunk c stats) w'
        ]
  ]

  unfoldable pub ingest_file :
      Node
      → FilePath
      → FilePath
      → IngestOptions
      → IngestStats
      → W
      → Result (IngestError E X) (Unit {0}) × IngestStats × W
  ingest_file disk root path opts stats w = elim (read_to_string path disk) [
    | none ↦ (err (read path), stats, w)
    | some text ↦
        ingest_chunks (relpath root path) opts (chunk text (for_ext (or_else (extension path) [])))
          stats w
  ]

  -- The loop over the files, with the stats that `progress` is called with.
  unfoldable pub ingest_files :
      Node
      → FilePath
      → IngestOptions
      → List FilePath
      → IngestStats
      → List IngestStats
      → W
      → Result (IngestError E X) (Unit {0}) × IngestStats × List IngestStats × W
  ingest_files disk root opts [] stats reports w = (ok tt, stats, reports, w)
  ingest_files disk root opts (path ∷ paths) stats reports w =
      let (result, stats', w') = ingest_file disk root path opts stats w in
      let counted = record stats' { files = stats'.files + 1 } in
      elim result [
        | err e ↦ (err e, stats', reports, w')
        | ok _ ↦ ingest_files disk root opts paths counted (reports ++ counted ∷ []) w'
      ]

  -- The result, the calls of `progress` and the writer.
  unfoldable pub ingest_tree :
      Node
      → FilePath
      → IngestOptions
      → W
      → Result (IngestError E X) IngestStats × List IngestStats × W
  ingest_tree disk root opts w =
      if embedder.dim == writer.embedding_dim w
      then (let (result, stats, reports, w') =
            ingest_files disk root opts (collect_files disk root opts) (first_stats opts) [] w in
          elim result [
            | err e ↦ (err e, reports, w')
            | ok _ ↦
                let (flushed, w'') = writer.flush w' in
                elim flushed [
                  | err e ↦ (err (flush e), reports, w'')
                  | ok _ ↦ (ok stats, reports, w'')
                ]
          ])
      else (err (dims_differ embedder.dim (writer.embedding_dim w)), [], w)
