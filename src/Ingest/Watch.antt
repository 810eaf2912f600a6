-- ===== src/Ingest/Watch.antt =====
-- `watch_tree` of crates/skeg-rigging-ingest/src/lib.rs: its loop over the notifications of the
-- file system, which are an argument, with the clock and the files that each meets. Time is a
-- number of milliseconds.
pub mod Rounds
use skeg_rigging.Base.{
  ℕ, ◌+◌, ◌-◌, ◌<◌, ◌≡◌, refl, sym, ap, ◌∙◌, Bool, true, false, not, ◌||◌, Option, none, some, List,
  [], ◌∷◌, ◌++◌, Result, ok, err, length, ltb, arith, if◌then◌else◌,
}
use skeg_rigging.Text.{Str}
use skeg_rigging.Text.Paths.{FilePath, path_eq, path_eq_refl}
use skeg_rigging.Disk.{Node, node_at, read_to_string}
use skeg_rigging.Write.{TenantWrite, Embed}
use skeg_rigging.Ingest.{
  IngestOptions, IngestStats, IngestError, accepts, first_stats, ingest_file, or_else, relpath,
  ingest_chunks,
}
use skeg_rigging.Ingest.Ids.{skip}
use skeg_rigging.Ingest.Chunks.{file_chunks, counted, ingest_chunks-Wrote, next_id-counted}

pub data FsKind : Type 0 where
  create modify other : FsKind

-- A path of an event, with the clock and the file system as the loop finds them.
pub record Seen : Type 0 where
  pub path : FilePath
  pub now : ℕ
  pub disk : Node

pub data Notice : Type 0 where
  failed : Notice
  event : FsKind → List Seen → Notice

-- The variables of the loop, and the stats that `on_batch` was called with.
pub record Watch : Type 0 where
  pub opts : IngestOptions
  pub last_seen : FilePath → Option ℕ
  pub next_id : ℕ
  pub reports : List IngestStats

is_file_node : Option Node → Bool
is_file_node (some (Node.file text)) = true
is_file_node _ = false

-- `path.is_file()`
unfoldable pub is_file : FilePath → Node → Bool
unfolding is_file_node node_at
is_file path disk = is_file_node (node_at path disk)

abbrev pub debounce : ℕ
debounce = 800

-- `now.duration_since(*prev) < debounce`, of which the difference stops at 0.
abbrev pub is_recent : Option ℕ → ℕ → Bool
is_recent none now = false
is_recent (some prev) now = ltb (now - prev) debounce

abbrev pub note : Seen → Watch → Watch
note s watch = record watch {
  opts = record watch.opts { start_id = watch.next_id };
  last_seen = λ path. if path_eq path s.path then some s.now else watch.last_seen path;
}

module _ {W F E X : Type 0} (writer : TenantWrite W F E) (embedder : Embed F X) where
  -- What follows `ingest_file`: an error is passed over, and so is the result of the flush.
  unfoldable pub finish_path :
      Result (IngestError E X) (Unit {0}) → IngestStats → Watch → W → Watch × W
  finish_path (err e) stats watch w = (watch, w)
  finish_path (ok _) stats watch w = (
    record watch {
      next_id = stats.next_id;
      reports = watch.reports ++ record stats { files = 1 } ∷ [];
    },
    (writer.flush w).1,
  )

  unfoldable pub watch_path : FilePath → Seen → Watch → W → Watch × W
  watch_path root s watch w =
      let noted = note s watch in
      let (result, stats, w') =
        ingest_file writer embedder s.disk root s.path noted.opts (first_stats noted.opts) w in
      if not (is_file s.path s.disk) || not (accepts s.path watch.opts)
      then (watch, w)
      else if is_recent (watch.last_seen s.path) s.now
      then (watch, w)
      else finish_path result stats noted w'

  unfoldable pub watch_paths : FilePath → List Seen → Watch → W → Watch × W
  watch_paths root [] watch w = (watch, w)
  watch_paths root (s ∷ seen) watch w =
      let (watch', w') = watch_path root s watch w in watch_paths root seen watch' w'

  unfoldable pub watch_tree : FilePath → List Notice → Watch → W → Watch × W
  unfolding watch_paths
  watch_tree root [] watch w = (watch, w)
  watch_tree root (Notice.failed ∷ notices) watch w = watch_tree root notices watch w
  watch_tree root (Notice.event FsKind.other seen ∷ notices) watch w =
      watch_tree root notices watch w
  watch_tree root (Notice.event _ seen ∷ notices) watch w =
      let (watch', w') = watch_paths root seen watch w in watch_tree root notices watch' w'
