-- ===== src/OllamaEmbed.antt =====
-- `OllamaEmbed` of crates/skeg-rigging-ingest/src/embed.rs. The packages `ureq` and `serde_json` are
-- parameters: a request is an answer, or none, from a server with a state `W`, and a JSON value `V`
-- is known by how it is read.
use skeg_rigging.Base.{
  ℕ, ◌<◌, ◌^◌, ◌≡◌, ◌≢◌, refl, sym, ap, ◌∙◌, Option, none, some, List, [], ◌∷◌, ◌++◌, Result, ok,
  err, length, ◌==◌, ==_iff, as_u32, arith, if◌then◌else◌,
}
use skeg_rigging.Text.{Str, codes}

-- The JSON that is sent.
pub record Request : Type 0 where
  pub model : Str
  pub input : List Str

-- `send` ends with a response `R` or with what `ureq` fails with; `at` is `value[0]` and `field` is
-- `value["…"]`, both of which are null where there is nothing; `as_f32` is the cast of an `f64` `D`.
pub record Client (W R V D F : Type 0) : Type 0 where
  pub send : Str → Request → W → Option R × W
  pub into_json : R → Option V
  pub field : Str → V → V
  pub at : ℕ → V → V
  pub as_array : V → Option (List V)
  pub as_f64 : V → Option D
  pub as_f32 : D → F

-- The errors, without their texts.
pub data OllamaError : Type 0 where
  unreachable undecoded no_embeddings zero_length : OllamaError

abbrev pub query_prefix : Str
query_prefix = codes "Represent this sentence for searching relevant passages: "

pub record OllamaEmbed : Type 0 where
  pub url : Str
  pub model : Str
  pub dim : ℕ

module _ {W R V D F : Type 0} (client : Client W R V D F) where
  -- What is not a number is left out.
  unfoldable pub numbers : List V → List F
  numbers [] = []
  numbers (x ∷ arr) = elim (client.as_f64 x) [
    | none ↦ numbers arr
    | some d ↦ client.as_f32 d ∷ numbers arr
  ]

  unfoldable pub read_body : V → Result OllamaError (List F)
  unfolding numbers
  read_body body = elim (client.as_array (client.at 0 (client.field (codes "embeddings") body))) [
    | none ↦ err no_embeddings
    | some arr ↦ ok (numbers arr)
  ]

  unfoldable pub read_response : Option R → Result OllamaError (List F)
  unfolding read_body
  read_response none = err unreachable
  read_response (some resp) = elim (client.into_json resp) [
    | none ↦ err undecoded
    | some body ↦ read_body body
  ]

  unfoldable pub call : Str → Str → Str → W → Result OllamaError (List F) × W
  unfolding read_response
  call url model input w =
      let (resp, w') =
        client.send (url ++ codes "/api/embed") (record { model = model; input = input ∷ [] }) w in
      (read_response resp, w')

  abbrev probed : Str → Str → Result OllamaError (List F) → Result OllamaError OllamaEmbed
  probed url model (err e) = err e
  probed url model (ok v) =
      if as_u32 (length v) == 0
      then err zero_length
      else ok (record { url = url; model = model; dim = as_u32 (length v) })

  unfoldable pub connect : Str → Str → W → Result OllamaError OllamaEmbed × W
  unfolding call
  connect url model w =
      let (answer, w') = call url model (codes "dimension probe") w in (probed url model answer, w')

  unfoldable pub passage : OllamaEmbed → Str → W → Result OllamaError (List F) × W
  unfolding call
  passage e text w = call e.url e.model text w

  unfoldable pub query : OllamaEmbed → Str → W → Result OllamaError (List F) × W
  unfolding call
  query e text w = call e.url e.model (query_prefix ++ text) w

  -- A server that answers every text with arrays of `n` numbers.
  abbrev pub IsUniform : ℕ → Type 0
  IsUniform n =
      (url model input : Str) (w : W) (v : List F)
      → (call url model input w).0 ≡ ok v
      → length v ≡ n

  probed-ok :
      (url model : Str) (answer : Result OllamaError (List F)) (e : OllamaEmbed)
      → probed url model answer ≡ ok e
      → (v : List F) × (answer ≡ ok v) × (e.dim ≡ as_u32 (length v)) × (e.dim ≢ 0)
  probed-ok url model (err failure) e h = absurd (cc)
  probed-ok url model (ok v) e h =
      (v, refl, ground arith, ground (arith, ==_iff (as_u32 (length v)) 0))

  -- From a server whose arrays have one size, below 2 ^ 32, an embedder that connects has that
  -- size as its dimension, which is not zero, and every passage or query that it gets has it.
  connect-IsUniform :
      (n : ℕ) (url model text : Str) (w w' u : W) (e : OllamaEmbed) (v : List F)
      → n < 2 ^ 32
      → IsUniform n
      → connect url model w ≡ (ok e, w')
      → (e.dim ≡ n)
        × (n ≢ 0)
        × ((passage e text u).0 ≡ ok v → length v ≡ e.dim)
        × ((query e text u).0 ≡ ok v → length v ≡ e.dim)
  unfolding connect passage query
  connect-IsUniform n url model text w w' u e v small uniform h =
      let (probe, answered, dim, some_dim) =
        probed-ok url model (call url model (codes "dimension probe") w).0 e
          (ap (λ (o : Result OllamaError OllamaEmbed × W). o.0) h) in
      let size = uniform url model (codes "dimension probe") w probe answered in
      let same : e.dim ≡ n = omega (arith, dim, size, small) in
      (
        same,
        λ z. some_dim (same ∙ z),
        λ got. uniform e.url e.model text u v got ∙ sym same,
        λ got. uniform e.url e.model (query_prefix ++ text) u v got ∙ sym same,
      )
