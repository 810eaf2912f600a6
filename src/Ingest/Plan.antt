-- ===== src/Ingest/Plan.antt =====
-- A successful run of crates/skeg-rigging-ingest/src/lib.rs, against a plan of what it writes.
use mathlib.Core.Path.{subst, ap₂}
use mathlib.Core.List.{map-append}
use skeg_rigging.Base.{
  ℕ, ◌+◌, ◌≡◌, refl, sym, ap, ◌∙◌, none, some, List, [], ◌∷◌, ◌++◌, Result, ok, err, ◌>>=◌, length,
  length-append, map, arith,
}
use skeg_rigging.Text.{Str}
use skeg_rigging.Text.Paths.{FilePath}
use skeg_rigging.Disk.{Node, read_to_string}
use skeg_rigging.Write.{NewRecord, TenantWrite, Embed}
use skeg_rigging.Ingest.Ids.{skip, consecutive, skip-skip, consecutive-append}
use skeg_rigging.Ingest.{
  IngestOptions, IngestStats, IngestError, read, first_stats, relpath, or_else, collect_files,
  ingest_chunks, ingest_file, ingest_files, ingest_tree,
}
use skeg_rigging.Ingest.Chunks.{
  file_chunks, next_id-counted, plan_chunks, Wrote, ingest_chunks-Wrote, insert_all-append,
}

module _ {W F E X : Type 0} (writer : TenantWrite W F E) (embedder : Embed F X) where
  -- The files one after another; a file that cannot be read stops the plan.
  abbrev pub plan_files :
      Node
      → FilePath
      → IngestOptions
      → ℕ
      → List FilePath
      → Result (IngestError E X) (List (NewRecord F))
  plan_files disk root opts id [] = ok []
  plan_files disk root opts id (path ∷ paths) = elim (read_to_string path disk) [
    | none ↦ err (read path)
    | some text ↦ do
      records ← plan_chunks writer embedder (relpath root path) opts id (file_chunks path text)
      rest ← plan_files disk root opts (skip (length (file_chunks path text)) id) paths
      ok (records ++ rest)
  ]

  file_step :
      (disk : Node) (root path : FilePath) (opts : IngestOptions) (paths : List FilePath)
      (stats stats' : IngestStats) (reports reports' : List IngestStats) (w w' : W)
      → ingest_files writer embedder disk root opts (path ∷ paths) stats reports w
        ≡ (ok tt, stats', reports', w')
      → (text : Str) × (read_to_string path disk ≡ some text)
        × (mid : IngestStats) × (v : W) × (ingest_chunks writer embedder
              (relpath root path)
              opts
              (file_chunks path text)
              stats
              w
            ≡ (ok tt, mid, v))
        × (ingest_files writer embedder disk root opts paths
              (record mid { files = mid.files + 1 })
              (reports ++ record mid { files = mid.files + 1 } ∷ [])
              v
            ≡ (ok tt, stats', reports', w'))
  unfolding ingest_files ingest_file
  file_step disk root path opts paths stats stats' reports reports' w w' h =
      let text = or_else (read_to_string path disk) [] in
      let run =
        ingest_chunks writer embedder (relpath root path) opts (file_chunks path text) stats w in
      (text, ground arith, run.1, run.2, ground arith, ground arith)

  abbrev Run : Type 0
  Run = Result (IngestError E X) (Unit {0}) × IngestStats × List IngestStats × W

  plan_files-cons :
      (disk : Node) (root path : FilePath) (opts : IngestOptions) (id : ℕ) (paths : List FilePath)
      (text : Str) (records rest : List (NewRecord F))
      → read_to_string path disk ≡ some text
      → plan_chunks writer embedder (relpath root path) opts id (file_chunks path text) ≡ ok records
      → plan_files disk root opts (skip (length (file_chunks path text)) id) paths ≡ ok rest
      → plan_files disk root opts id (path ∷ paths) ≡ ok (records ++ rest)
  plan_files-cons disk root path opts id paths text records rest found one more = ground arith

  ids_joined :
      (records rest : List (NewRecord F)) (m n id next : ℕ)
      → next ≡ skip m id
      → map (λ r. r.record_id) records ≡ consecutive m id
      → map (λ r. r.record_id) rest ≡ consecutive n next
      → map (λ r. r.record_id) (records ++ rest) ≡ consecutive (m + n) id
  ids_joined records rest m n id next here ids ids' =
      map-append (λ (r : NewRecord F). r.record_id) records rest
      ∙ ap₂ (◌++◌) ids (ids' ∙ ap (consecutive n) here)
      ∙ consecutive-append m n id

  -- The loop over the files wrote the planned records, numbered in a row, and counted the chunks
  -- and the files.
  FilesWrote :
      Node → FilePath → IngestOptions → List FilePath → IngestStats → IngestStats → W → W → Type 0
  FilesWrote disk root opts paths stats stats' w w' =
      (n : ℕ) × Wrote writer embedder (plan_files disk root opts stats.next_id paths) stats.next_id
        n w w'
      × (stats'.next_id ≡ skip n stats.next_id)
      × (stats'.chunks ≡ stats.chunks + n)
      × (stats'.files ≡ stats.files + length paths)

  ingest_files-FilesWrote :
      (disk : Node) (root : FilePath) (opts : IngestOptions) (paths : List FilePath)
      (stats stats' : IngestStats) (reports reports' : List IngestStats) (w w' : W)
      → ingest_files writer embedder disk root opts paths stats reports w
        ≡ (ok tt, stats', reports', w')
      → FilesWrote disk root opts paths stats stats' w w'
  unfolding FilesWrote ingest_files
  ingest_files-FilesWrote disk root opts [] stats stats' reports reports' w w' h =
      let same : w ≡ w' = ap (λ (o : Run). o.3) h in
      let kept : stats ≡ stats' = ap (λ (o : Run). o.1) h in
      (
        0,
        ([], refl, ap (λ (x : W). (ok tt, x)) same, refl, refl),
        sym (ap (λ (t : IngestStats). t.next_id) kept),
        omega (arith, ap (λ (t : IngestStats). t.chunks) kept),
        omega (arith, ap (λ (t : IngestStats). t.files) kept),
      )
  ingest_files-FilesWrote disk root opts (path ∷ paths) stats stats' reports reports' w w' h =
      let (text, found, mid, v, one, more) =
        file_step disk root path opts paths stats stats' reports reports' w w' h in
      let cs = file_chunks path text in
      let ((records, planned, inserted, ids, count), counts) =
        ingest_chunks-Wrote writer embedder (relpath root path) opts cs stats mid w v one in
      let (n, (rest, planned', inserted', ids', count'), next, chunks, files) =
        ingest_files-FilesWrote disk root opts paths (record mid { files = mid.files + 1 }) stats'
          (reports ++ record mid { files = mid.files + 1 } ∷ []) reports' v w' more in
      let (next_c, chunks_c, files_c) = next_id-counted cs stats in
      let here : mid.next_id ≡ skip (length cs) stats.next_id =
        ap (λ (t : IngestStats). t.next_id) counts ∙ next_c in
      (
        length cs + n,
        (
          records ++ rest,
          plan_files-cons disk root path opts stats.next_id paths text records rest found planned
              (subst (λ id. plan_files disk root opts id paths ≡ ok rest) here planned'),
          insert_all-append writer embedder records rest w v inserted ∙ inserted',
          ids_joined records rest (length cs) n stats.next_id mid.next_id here ids ids',
          length-append records rest ∙ omega arith,
        ),
        next ∙ ap (skip n) here ∙ skip-skip (length cs) n stats.next_id,
        omega (arith, ap (λ (t : IngestStats). t.chunks) counts),
        omega (arith, ap (λ (t : IngestStats). t.files) counts),
      )

  tree_step :
      (disk : Node) (root : FilePath) (opts : IngestOptions) (w w'' : W) (stats : IngestStats)
      (reports : List IngestStats)
      → ingest_tree writer embedder disk root opts w ≡ (ok stats, reports, w'')
      → (embedder.dim ≡ writer.embedding_dim w)
        × (v : W) × (ingest_files writer embedder disk root opts
              (collect_files disk root opts)
              (first_stats opts)
              []
              w
            ≡ (ok tt, stats, reports, v))
        × (writer.flush v ≡ (ok tt, w''))
  unfolding ingest_tree
  tree_step disk root opts w w'' stats reports h =
      let run =
        ingest_files writer embedder disk root opts (collect_files disk root opts)
          (first_stats opts) [] w in
      (ground arith, run.3, ground arith, ground arith)

  -- A run that succeeds had an embedder of the writer's dimension. It wrote exactly the planned
  -- records of the files that it collected, in their order, and then flushed; they are numbered in
  -- a row from `start_id`, and the stats count them, the files, and the id behind the last.
  pub ingest_tree-planned :
      (disk : Node) (root : FilePath) (opts : IngestOptions) (w w'' : W) (stats : IngestStats)
      (reports : List IngestStats)
      → ingest_tree writer embedder disk root opts w ≡ (ok stats, reports, w'')
      → (embedder.dim ≡ writer.embedding_dim w)
        × (n : ℕ) × (w' : W) × Wrote writer embedder
            (plan_files disk root opts opts.start_id (collect_files disk root opts))
            opts.start_id
            n
            w
            w'
        × (writer.flush w' ≡ (ok tt, w''))
        × (stats.next_id ≡ skip n opts.start_id)
        × (stats.chunks ≡ n)
        × (stats.files ≡ length (collect_files disk root opts))
  unfolding FilesWrote
  ingest_tree-planned disk root opts w w'' stats reports h =
      let (dims, v, run, flushed) = tree_step disk root opts w w'' stats reports h in
      let (n, wrote, next, chunks, files) =
        ingest_files-FilesWrote disk root opts (collect_files disk root opts) (first_stats opts)
          stats [] reports w v run in
      (dims, n, v, wrote, flushed, next, omega arith, omega arith)
