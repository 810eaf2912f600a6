-- ===== src/Ingest/Watch/Rounds.antt =====
-- What one round of `watch_tree` (crates/skeg-rigging-ingest/src/lib.rs) does with a path.
use skeg_rigging.Base.{
  ◌+◌, ◌<◌, ◌≡◌, refl, sym, ap, ◌∙◌, true, false, some, [], ◌∷◌, ◌++◌, Result, ok, err, length,
  arith,
}
use skeg_rigging.Text.{Str}
use skeg_rigging.Text.Paths.{FilePath, path_eq_refl}
use skeg_rigging.Disk.{Node, read_to_string}
use skeg_rigging.Write.{TenantWrite, Embed}
use skeg_rigging.Ingest.{
  IngestOptions, IngestStats, IngestError, accepts, first_stats, ingest_file, relpath,
  ingest_chunks,
}
use skeg_rigging.Ingest.Ids.{skip}
use skeg_rigging.Ingest.Chunks.{file_chunks, ingest_chunks-Wrote, next_id-counted}
use skeg_rigging.Ingest.Watch.{
  Seen, Watch, is_file, debounce, is_recent, note, finish_path, watch_path,
}

module _ {W F E X : Type 0} (writer : TenantWrite W F E) (embedder : Embed F X) where
  last_seen-finish_path :
      (result : Result (IngestError E X) (Unit {0})) (stats : IngestStats) (watch : Watch) (w : W)
      → (finish_path writer embedder result stats watch w).0.last_seen ≡ watch.last_seen
  unfolding finish_path
  last_seen-finish_path (err e) stats watch w = refl
  last_seen-finish_path (ok _) stats watch w = refl

  watch_path_ingests :
      (root : FilePath) (s : Seen) (watch : Watch) (w : W)
      → is_file s.path s.disk ≡ true
      → accepts s.path watch.opts ≡ true
      → is_recent (watch.last_seen s.path) s.now ≡ false
      → (run : Result (IngestError E X) (Unit {0}) × IngestStats × W) × (ingest_file writer embedder
            s.disk root s.path
            (note s watch).opts
            (first_stats (note s watch).opts)
            w
          ≡ run)
        × (watch_path writer embedder root s watch w
            ≡ finish_path writer embedder run.0 run.1 (note s watch) run.2)
  unfolding watch_path
  watch_path_ingests root s watch w there wanted late = (
    ingest_file writer embedder s.disk root s.path (note s watch).opts
        (first_stats (note s watch).opts) w,
    refl,
    rw (there, wanted, late),
  )

  last_seen-watch_path :
      (root : FilePath) (s : Seen) (watch : Watch) (w : W)
      → is_file s.path s.disk ≡ true
      → accepts s.path watch.opts ≡ true
      → is_recent (watch.last_seen s.path) s.now ≡ false
      → (watch_path writer embedder root s watch w).0.last_seen s.path ≡ some s.now
  last_seen-watch_path root s watch w there wanted late =
      let (run, _, e) = watch_path_ingests root s watch w there wanted late in
      rw (e, last_seen-finish_path run.0 run.1 (note s watch) run.2, path_eq_refl s.path)

  watch_path_skips :
      (root : FilePath) (s : Seen) (watch : Watch) (w : W)
      → is_recent (watch.last_seen s.path) s.now ≡ true
      → watch_path writer embedder root s watch w ≡ (watch, w)
  unfolding watch_path
  watch_path_skips root s watch w recent = rw recent (ground arith)

  -- A path that was just ingested, with success or not, is left alone for the time of the debounce:
  -- a further notification within it changes neither the loop's variables nor the writer.
  pub watch_path-debounce :
      (root : FilePath) (s again : Seen) (watch : Watch) (w : W)
      → is_file s.path s.disk ≡ true
      → accepts s.path watch.opts ≡ true
      → is_recent (watch.last_seen s.path) s.now ≡ false
      → again.path ≡ s.path
      → again.now < s.now + debounce
      → watch_path writer embedder root again
          (watch_path writer embedder root s watch w).0
          (watch_path writer embedder root s watch w).1
        ≡ watch_path writer embedder root s watch w
  watch_path-debounce root s again watch w there wanted late same soon =
      watch_path_skips root again (watch_path writer embedder root s watch w).0
        (watch_path writer embedder root s watch w).1
        (rw (same, last_seen-watch_path root s watch w there wanted late) (ground arith))

  file_run :
      (root path : FilePath) (disk : Node) (opts : IngestOptions) (text : Str) (stats : IngestStats)
      (w : W)
      → read_to_string path disk ≡ some text
      → ingest_file writer embedder disk root path opts stats w
        ≡ ingest_chunks writer embedder (relpath root path) opts (file_chunks path text) stats w
  unfolding ingest_file ingest_chunks
  file_run root path disk opts text stats w found = rw (ingest_file, found)

  -- A file that is ingested with success adds one report, which counts that file alone, and moves
  -- the next id behind the ids of its chunks.
  pub watch_path-counts :
      (root : FilePath) (s : Seen) (watch : Watch) (text : Str) (w w' : W) (stats : IngestStats)
      → read_to_string s.path s.disk ≡ some text
      → is_file s.path s.disk ≡ true
      → accepts s.path watch.opts ≡ true
      → is_recent (watch.last_seen s.path) s.now ≡ false
      → ingest_file writer embedder s.disk root s.path
          (note s watch).opts
          (first_stats (note s watch).opts)
          w
        ≡ (ok tt, stats, w')
      → (report : IngestStats) × ((watch_path writer embedder root s watch w).0.reports
          ≡ watch.reports ++ report ∷ [])
        × (report.files ≡ 1)
        × (report.chunks ≡ length (file_chunks s.path text))
        × ((watch_path writer embedder root s watch w).0.next_id
            ≡ skip (length (file_chunks s.path text)) watch.next_id)
        × ((watch_path writer embedder root s watch w).1 ≡ (writer.flush w').1)
  unfolding finish_path
  watch_path-counts root s watch text w w' stats found there wanted late done =
      let opts = (note s watch).opts in
      let cs = file_chunks s.path text in
      let (run, ran, e) = watch_path_ingests root s watch w there wanted late in
      let (_, counts) =
        ingest_chunks-Wrote writer embedder (relpath root s.path) opts cs (first_stats opts) stats w
          w' (sym (file_run root s.path s.disk opts text (first_stats opts) w found) ∙ done) in
      let (next, chunks, _) = next_id-counted cs (first_stats opts) in
      let whole : watch_path writer embedder root s watch w
          ≡ finish_path writer embedder (ok tt) stats (note s watch) w' =
        e
        ∙ ap
            (λ (o : Result (IngestError E X) (Unit {0}) × IngestStats × W).
              finish_path writer embedder o.0 o.1 (note s watch) o.2)
            (sym ran ∙ done) in
      (
        record stats { files = 1 },
        ap (λ (o : Watch × W). o.0.reports) whole,
        refl,
        ap (λ (t : IngestStats). t.chunks) counts ∙ chunks ∙ omega arith,
        ap (λ (o : Watch × W). o.0.next_id) whole
            ∙ ap (λ (t : IngestStats). t.next_id) counts
            ∙ next,
        ap (λ (o : Watch × W). o.1) whole,
      )

  -- A file whose ingest fails, after however many of its records were written, does not move the
  -- next id: the writer keeps those records, and the next file starts with the same ids.
  pub watch_path-failed :
      (root : FilePath) (s : Seen) (watch : Watch) (w w' : W) (stats : IngestStats)
      (e : IngestError E X)
      → is_file s.path s.disk ≡ true
      → accepts s.path watch.opts ≡ true
      → is_recent (watch.last_seen s.path) s.now ≡ false
      → ingest_file writer embedder s.disk root s.path
          (note s watch).opts
          (first_stats (note s watch).opts)
          w
        ≡ (err e, stats, w')
      → ((watch_path writer embedder root s watch w).0.next_id ≡ watch.next_id)
        × ((watch_path writer embedder root s watch w).0.reports ≡ watch.reports)
        × ((watch_path writer embedder root s watch w).1 ≡ w')
  unfolding finish_path
  watch_path-failed root s watch w w' stats e there wanted late done =
      let (run, ran, e') = watch_path_ingests root s watch w there wanted late in
      let whole : watch_path writer embedder root s watch w ≡ (note s watch, w') =
        e'
        ∙ ap
            (λ (o : Result (IngestError E X) (Unit {0}) × IngestStats × W).
              finish_path writer embedder o.0 o.1 (note s watch) o.2)
            (sym ran ∙ done) in
      (
        ap (λ (o : Watch × W). o.0.next_id) whole,
        ap (λ (o : Watch × W). o.0.reports) whole,
        ap (λ (o : Watch × W). o.1) whole,
      )
