-- ===== src/Tests/Watches.antt =====
-- Notifications about two files, of which one holds a text that cannot be embedded.
use skeg_rigging.Base.{
  ℕ, ◌≡◌, refl, false, some, none, List, [], ◌∷◌, ok, err, length, map, arith, Result,
  if◌then◌else◌, ◌==◌,
}
use skeg_rigging.Text.{codes, is_whitespace, as_bytes}
use skeg_rigging.Text.Decimal.{decimal}
use skeg_rigging.Text.Paths.{path_eq, extension}
use skeg_rigging.Disk.{Node, nil, entry, read_to_string}
use skeg_rigging.Write.{NewRecord, Embed}
use skeg_rigging.Chunk.{chunk, for_ext, word_count}
use skeg_rigging.Ingest.{
  IngestStats, IngestError, embed, accepts, first_stats, ingest_file, ingest_chunks, relpath,
  default_options,
}
use skeg_rigging.Ingest.Ids.{skip}
use skeg_rigging.Ingest.Chunks.{file_chunks}
use skeg_rigging.Ingest.Watch.{
  create, Seen, event, Watch, is_file, note, finish_path, watch_path, watch_tree,
}
use skeg_rigging.Ingest.Watch.Rounds.{watch_path-debounce, watch_path-counts}
use skeg_rigging.Tests.Trees.{list_writer}

-- It refuses a text of one character.
abbrev picky : Embed ℕ ℕ
picky = record {
  dim = 2;
  passage = λ s. if length s == 1 then err 7 else ok (length s ∷ 0 ∷ []);
  query = λ s. ok [];
}

abbrev disk : Node
disk = Node.dir (
    entry (codes "half.md") (Node.file (some (codes "xx\n\ny")))
      (entry (codes "good.md") (Node.file (some (codes "zz"))) nil))

abbrev half : Seen
half = record { path = codes "half.md" ∷ []; now = 1000; disk = disk }

abbrev good : Seen
good = record { path = codes "good.md" ∷ []; now = 1100; disk = disk }

abbrev good_again : Seen
good_again = record good { now = 1500 }

abbrev start : Watch
start = record { opts = default_options; last_seen = λ p. none; next_id = 0; reports = [] }

abbrev good_stats : IngestStats
good_stats = record { files = 0; chunks = 1; words = 1; next_id = 1 }

abbrev zz : NewRecord ℕ
zz = record {
  record_id = 0;
  embedding = 2 ∷ 0 ∷ [];
  shareable = false;
  tags = codes "src:good.md:1-1" ∷ [];
  payload = codes "zz";
}

watch_path-debounce_example :
    watch_path list_writer picky [] good_again
      (watch_path list_writer picky [] good start []).0
      (watch_path list_writer picky [] good start []).1
    ≡ watch_path list_writer picky [] good start []
unfolding is_file accepts
watch_path-debounce_example =
    watch_path-debounce list_writer picky [] good good_again start [] refl refl refl refl
      (omega arith)

good_ingested :
    ingest_file list_writer picky disk [] good.path
      (note good start).opts
      (first_stats (note good start).opts)
      []
    ≡ (ok tt, good_stats, zz ∷ [])
unfolding ingest_file read_to_string ingest_chunks chunk for_ext extension is_whitespace word_count
    relpath as_bytes decimal
good_ingested = refl

watch_path-counts_example :
    (report : IngestStats) × ((watch_path list_writer picky [] good start []).0.reports
      ≡ report ∷ [])
    × (report.files ≡ 1)
    × (report.chunks ≡ length (file_chunks good.path (codes "zz")))
    × ((watch_path list_writer picky [] good start []).0.next_id
        ≡ skip (length (file_chunks good.path (codes "zz"))) 0)
    × ((watch_path list_writer picky [] good start []).1 ≡ (list_writer.flush (zz ∷ [])).1)
unfolding is_file accepts read_to_string
watch_path-counts_example =
    watch_path-counts list_writer picky [] good start (codes "zz") [] (zz ∷ []) good_stats refl refl
      refl refl good_ingested

abbrev half_run : Result (IngestError ℕ ℕ) (Unit {0}) × IngestStats × List (NewRecord ℕ)
half_run =
    ingest_file list_writer picky disk [] half.path (note half start).opts
      (first_stats (note half start).opts) []

half_fails : half_run ≡ (err (embed 7), half_run.1, half_run.2)
unfolding ingest_file read_to_string ingest_chunks chunk for_ext extension is_whitespace
half_fails = refl

-- The record of the file that failed and the one of the next file have the same id.
id_twice :
    map
      (λ (r : NewRecord ℕ). r.record_id)
      (watch_tree list_writer picky []
        (event create (half ∷ []) ∷ event create (good ∷ []) ∷ [])
        start
        []).1
    ≡ 0 ∷ 0 ∷ []
unfolding watch_tree watch_path is_file accepts finish_path ingest_file read_to_string ingest_chunks
    chunk for_ext is_whitespace path_eq
id_twice = refl
