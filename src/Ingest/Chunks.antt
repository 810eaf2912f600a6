-- ===== src/Ingest/Chunks.antt =====
-- The loop over the chunks of one file, in crates/skeg-rigging-ingest/src/lib.rs, against a plan of
-- what it writes.
use skeg_rigging.Base.{
  ℕ, suc, ◌+◌, ◌≡◌, refl, sym, ap, List, [], ◌∷◌, ◌++◌, Result, ok, err, ◌>>=◌, length, map,
  add_u64, arith,
}
use skeg_rigging.Text.{Str}
use skeg_rigging.Text.Paths.{FilePath, extension}
use skeg_rigging.Write.{NewRecord, TenantWrite, Embed}
use skeg_rigging.Chunk.{Chunk, for_ext, chunk}
use skeg_rigging.Ingest.Ids.{skip, consecutive}
use skeg_rigging.Ingest.{
  IngestOptions, IngestStats, IngestError, embed, record_of, count_chunk, or_else, ingest_chunks,
}

-- The counts behind some chunks.
abbrev pub counted : List Chunk → IngestStats → IngestStats
counted [] stats = stats
counted (c ∷ cs) stats = counted cs (count_chunk c stats)

-- The chunks of one file.
abbrev pub file_chunks : FilePath → Str → List Chunk
file_chunks path text = chunk text (for_ext (or_else (extension path) []))

pub next_id-counted :
    (cs : List Chunk) (stats : IngestStats)
    → ((counted cs stats).next_id ≡ skip (length cs) stats.next_id)
      × ((counted cs stats).chunks ≡ stats.chunks + length cs)
      × ((counted cs stats).files ≡ stats.files)
next_id-counted [] stats = (refl, omega arith, refl)
next_id-counted (c ∷ cs) stats =
    let (id, chunks, files) = next_id-counted cs (count_chunk c stats) in (id, omega arith, files)

module _ {W F E X : Type 0} (writer : TenantWrite W F E) (embedder : Embed F X) where
  -- The records of some chunks, numbered from an id.
  abbrev pub plan_chunks :
      Str → IngestOptions → ℕ → List Chunk → Result (IngestError E X) (List (NewRecord F))
  plan_chunks rel opts id [] = ok []
  plan_chunks rel opts id (c ∷ cs) = elim (embedder.passage c.text) [
    | err e ↦ err (embed e)
    | ok v ↦ do rest ← plan_chunks rel opts (add_u64 id 1) cs; ok (record_of opts rel id c v ∷ rest)
  ]

  -- One insert after another, up to the first that fails.
  abbrev pub insert_all : List (NewRecord F) → W → Result E (Unit {0}) × W
  insert_all [] w = (ok tt, w)
  insert_all (r ∷ rs) w =
      let (result, w') = writer.insert r w in
      elim result [ err e ↦ (err e, w') | ok _ ↦ insert_all rs w' ]

  -- The loop wrote the planned records, and counted them.
  abbrev pub Wrote : Result (IngestError E X) (List (NewRecord F)) → ℕ → ℕ → W → W → Type 0
  Wrote plan id n w w' =
      (records : List (NewRecord F)) × (plan ≡ ok records)
      × (insert_all records w ≡ (ok tt, w'))
      × (map (λ r. r.record_id) records ≡ consecutive n id)
      × (length records ≡ n)

  abbrev Step : Type 0
  Step = Result (IngestError E X) (Unit {0}) × IngestStats × W

  chunk_step :
      (rel : Str) (opts : IngestOptions) (c : Chunk) (cs : List Chunk) (stats stats' : IngestStats)
      (w w' : W)
      → ingest_chunks writer embedder rel opts (c ∷ cs) stats w ≡ (ok tt, stats', w')
      → (v : List F) × (embedder.passage c.text ≡ ok v)
        × ((writer.insert (record_of opts rel stats.next_id c v) w).0 ≡ ok tt)
        × (ingest_chunks writer embedder rel opts cs
              (count_chunk c stats)
              (writer.insert (record_of opts rel stats.next_id c v) w).1
            ≡ (ok tt, stats', w'))
  unfolding ingest_chunks
  chunk_step rel opts c cs stats stats' w w' h = ground arith

  plan_chunks-cons :
      (rel : Str) (opts : IngestOptions) (id : ℕ) (c : Chunk) (cs : List Chunk) (v : List F)
      (rest : List (NewRecord F))
      → embedder.passage c.text ≡ ok v
      → plan_chunks rel opts (add_u64 id 1) cs ≡ ok rest
      → plan_chunks rel opts id (c ∷ cs) ≡ ok (record_of opts rel id c v ∷ rest)
  plan_chunks-cons rel opts id c cs v rest done planned = ground arith

  insert_all-cons :
      (r : NewRecord F) (rs : List (NewRecord F)) (w w' : W)
      → (writer.insert r w).0 ≡ ok tt
      → insert_all rs (writer.insert r w).1 ≡ (ok tt, w')
      → insert_all (r ∷ rs) w ≡ (ok tt, w')
  insert_all-cons r rs w w' done rest = ground arith

  pub ingest_chunks-Wrote :
      (rel : Str) (opts : IngestOptions) (cs : List Chunk) (stats stats' : IngestStats) (w w' : W)
      → ingest_chunks writer embedder rel opts cs stats w ≡ (ok tt, stats', w')
      → Wrote (plan_chunks rel opts stats.next_id cs) stats.next_id (length cs) w w'
        × (stats' ≡ counted cs stats)
  unfolding ingest_chunks
  ingest_chunks-Wrote rel opts [] stats stats' w w' h =
      let same : w ≡ w' = ap (λ (o : Step). o.2) h in
      (([], refl, ap (λ (x : W). (ok tt, x)) same, refl, refl), sym (ap (λ (o : Step). o.1) h))
  ingest_chunks-Wrote rel opts (c ∷ cs) stats stats' w w' h =
      let (v, done, written, rest) = chunk_step rel opts c cs stats stats' w w' h in
      let ((records, planned, inserted, ids, n), counts) =
        ingest_chunks-Wrote rel opts cs (count_chunk c stats) stats'
          (writer.insert (record_of opts rel stats.next_id c v) w).1 w' rest in
      (
        (
          record_of opts rel stats.next_id c v ∷ records,
          plan_chunks-cons rel opts stats.next_id c cs v records done planned,
          insert_all-cons _ records w w' written inserted,
          ap (◌∷◌ stats.next_id) ids,
          ap suc n,
        ),
        counts,
      )

  pub insert_all-append :
      (rs more : List (NewRecord F)) (w w' : W)
      → insert_all rs w ≡ (ok tt, w')
      → insert_all (rs ++ more) w ≡ insert_all more w'
  insert_all-append [] more w w' h =
      ap (insert_all more) (ap (λ (o : Result E (Unit {0}) × W). o.1) h)
  insert_all-append (r ∷ rs) more w w' h =
      ground (arith, insert_all-append rs more (writer.insert r w).1 w')
