-- ===== src/Ingest/Ids.antt =====
-- The record ids that crates/skeg-rigging-ingest/src/lib.rs allocates.
use skeg_rigging.Base.{
  ℕ, zero, suc, ◌+◌, ◌%◌, ◌^◌, ◌<◌, ◌≡◌, ap, ◌∙◌, List, [], ◌∷◌, ◌++◌, add_u64, arith,
}

-- The id behind `n` further chunks.
abbrev pub skip : ℕ → ℕ → ℕ
skip zero id = id
skip (suc n) id = skip n (add_u64 id 1)

-- `n` ids in a row.
abbrev pub consecutive : ℕ → ℕ → List ℕ
consecutive zero id = []
consecutive (suc n) id = id ∷ consecutive n (add_u64 id 1)

skip_lem : (n id : ℕ) → id < 2 ^ 64 → skip n id ≡ (id + n) % 2 ^ 64
skip_lem zero id h = omega arith
skip_lem (suc n) id h = omega (arith, skip_lem n (add_u64 id 1) (omega arith))

pub skip-skip : (n m id : ℕ) → skip m (skip n id) ≡ skip (n + m) id
skip-skip zero m id = let e : m ≡ zero + m = omega arith in ap (λ k. skip k id) e
skip-skip (suc n) m id =
    let e : suc (n + m) ≡ suc n + m = omega arith in
    skip-skip n m (add_u64 id 1) ∙ ap (λ k. skip k id) e

pub consecutive-append :
    (n m id : ℕ) → consecutive n id ++ consecutive m (skip n id) ≡ consecutive (n + m) id
consecutive-append zero m id = let e : m ≡ zero + m = omega arith in ap (λ k. consecutive k id) e
consecutive-append (suc n) m id =
    let e : suc (n + m) ≡ suc n + m = omega arith in
    ap (◌∷◌ id) (consecutive-append n m (add_u64 id 1)) ∙ ap (λ k. consecutive k id) e
