-- ===== src/Base/Keyed.antt =====
-- A vector of records in which a key is unique: `iter().any`, the overwrite of a slot or a push at
-- the end, and `retain`.
pub mod Maps
use skeg_rigging.Base.{
  ℕ, ◌+◌, ◌≡◌, refl, Bool, true, false, not, ◌||◌, Option, none, some, List, [], ◌∷◌, ◌++◌, arith,
  ◌==◌, ==_iff, length, length-append, any, find, filter, All-append, if_elim, ◌∙◌, All,
  if◌then◌else◌, map,
}

module _ {ℓ} {R : Type ℓ} (key : R → ℕ) where
  -- `iter().find(|r| key(r) == id)` and `iter().any(…)`
  abbrev pub lookup : ℕ → List R → Option R
  lookup id = find (λ r. key r == id)

  abbrev pub contains : ℕ → List R → Bool
  contains id = any (λ r. key r == id)

  -- `*slot = rec` at the first record with the key
  unfoldable pub overwrite : R → List R → List R
  overwrite rec [] = []
  overwrite rec (r ∷ records) =
      if key r == key rec then rec ∷ records else r ∷ overwrite rec records

  -- `if let Some(slot) = … { *slot = rec } else { push(rec) }`
  unfoldable pub store : R → List R → List R
  store rec records =
      if contains (key rec) records then overwrite rec records else records ++ rec ∷ []

  -- `retain(|r| key(r) != id)`
  abbrev pub remove : ℕ → List R → List R
  remove id = filter (λ r. not (key r == id))

  -- No key twice.
  abbrev pub Distinct : List R → Type 0
  Distinct [] = Unit
  Distinct (r ∷ records) = (contains (key r) records ≡ false) × Distinct records

  lookup-overwrite :
      (rec : R) (records : List R) (id : ℕ)
      → contains (key rec) records ≡ true
      → lookup id (overwrite rec records) ≡ (if key rec == id then some rec else lookup id records)
  unfolding overwrite
  lookup-overwrite rec [] id h = cc
  lookup-overwrite rec (r ∷ records) id h = ground (arith, lookup-overwrite rec records id)

  lookup-push :
      (rec : R) (records : List R) (id : ℕ)
      → contains (key rec) records ≡ false
      → lookup id (records ++ rec ∷ []) ≡ (if key rec == id then some rec else lookup id records)
  lookup-push rec [] id h = refl
  lookup-push rec (r ∷ records) id h = ground (arith, lookup-push rec records id)

  -- After a store the key has the new record, and every other key what it had.
  pub lookup-store :
      (rec : R) (records : List R) (id : ℕ)
      → lookup id (store rec records) ≡ (if key rec == id then some rec else lookup id records)
  unfolding store
  lookup-store rec records id =
      ground (arith, lookup-overwrite rec records id, lookup-push rec records id)

  contains-overwrite :
      (rec : R) (records : List R) (id : ℕ)
      → contains id (overwrite rec records) ≡ contains id records
  unfolding overwrite
  contains-overwrite rec [] id = refl
  contains-overwrite rec (r ∷ records) id = ground (arith, contains-overwrite rec records id)

  contains-push :
      (rec : R) (records : List R) (id : ℕ)
      → contains id (records ++ rec ∷ []) ≡ (contains id records || key rec == id)
  contains-push rec [] id = ground arith
  contains-push rec (r ∷ records) id = ground (arith, contains-push rec records id)

  contains-remove :
      (id j : ℕ) (records : List R)
      → contains j (remove id records) ≡ (if id == j then false else contains j records)
  contains-remove id j [] = ground arith
  contains-remove id j (r ∷ records) = ground (arith, contains-remove id j records)

  Distinct-overwrite :
      (rec : R) (records : List R) → Distinct records → Distinct (overwrite rec records)
  unfolding overwrite
  Distinct-overwrite rec [] d = tt
  Distinct-overwrite rec (r ∷ records) d =
      if_elim Distinct (key r == key rec)
        (λ same. (rw (← (==_iff (key r) (key rec)).0 same) d.0, d.1))
        (λ _. (contains-overwrite rec records (key r) ∙ d.0, Distinct-overwrite rec records d.1))

  Distinct-push :
      (rec : R) (records : List R)
      → contains (key rec) records ≡ false
      → Distinct records
      → Distinct (records ++ rec ∷ [])
  Distinct-push rec [] h d = (refl, tt)
  Distinct-push rec (r ∷ records) h d = (
    ground (arith, contains-push rec records (key r)),
    Distinct-push rec records (ground arith) d.1,
  )

  pub lookup-remove :
      (id j : ℕ) (records : List R)
      → lookup j (remove id records) ≡ (if id == j then none else lookup j records)
  lookup-remove id j [] = ground arith
  lookup-remove id j (r ∷ records) = ground (arith, lookup-remove id j records)

  length-overwrite : (rec : R) (records : List R) → length (overwrite rec records) ≡ length records
  unfolding overwrite
  length-overwrite rec [] = refl
  length-overwrite rec (r ∷ records) = ground (arith, length-overwrite rec records)

  remove_absent :
      (id : ℕ) (records : List R) → contains id records ≡ false → remove id records ≡ records
  remove_absent id [] h = refl
  remove_absent id (r ∷ records) h = ground (arith, remove_absent id records)

  contains-store :
      (rec : R) (records : List R) (id : ℕ)
      → contains id (store rec records) ≡ (contains id records || key rec == id)
  unfolding store
  contains-store rec records id =
      ground (
        arith,
        contains-overwrite rec records id,
        contains-push rec records id,
        ==_iff (key rec) id,
      )

  pub Distinct-store :
      (rec : R) (records : List R) → Distinct records → Distinct (store rec records)
  unfolding store
  Distinct-store rec records d =
      if_elim Distinct (contains (key rec) records) (λ _. Distinct-overwrite rec records d)
        (λ fresh. Distinct-push rec records fresh d)

  length-store :
      (rec : R) (records : List R)
      → length (store rec records) ≡ length records + (if contains (key rec) records then 0 else 1)
  unfolding store
  length-store rec records =
      ground (arith, length-overwrite rec records, length-append records (rec ∷ []))

  lookup_absent :
      (id : ℕ) (records : List R) → contains id records ≡ false → lookup id records ≡ none
  lookup_absent id [] h = refl
  lookup_absent id (r ∷ records) h = ground (arith, lookup_absent id records)

  -- A record behind one with another key is found.
  pub lookup_behind :
      (r x : R) (records : List R) (id : ℕ)
      → contains (key r) records ≡ false
      → lookup id records ≡ some x
      → lookup id (r ∷ records) ≡ some x
  lookup_behind r x records id fresh found =
      ground (arith, lookup_absent (key r) records, ==_iff (key r) id)

  pub Distinct-remove :
      (id : ℕ) (records : List R) → Distinct records → Distinct (remove id records)
  Distinct-remove id [] d = tt
  Distinct-remove id (r ∷ records) d =
      if_elim Distinct (not (key r == id))
        (λ _. (ground (arith, contains-remove id (key r) records), Distinct-remove id records d.1))
        (λ _. Distinct-remove id records d.1)

  -- Under a unique key, exactly one record goes.
  pub length-remove :
      (id : ℕ) (records : List R)
      → Distinct records
      → length (remove id records) + (if contains id records then 1 else 0) ≡ length records
  length-remove id [] d = omega arith
  length-remove id (r ∷ records) d =
      ground (arith, length-remove id records d.1, remove_absent id records, ==_iff (key r) id)

  All-overwrite :
      (P : R → Type 0) (rec : R) (records : List R)
      → P rec
      → All P records
      → All P (overwrite rec records)
  unfolding overwrite
  All-overwrite P rec [] p ps = tt
  All-overwrite P rec (r ∷ records) p ps =
      if_elim (All P) (key r == key rec) (λ _. (p, ps.1))
        (λ _. (ps.0, All-overwrite P rec records p ps.1))

  pub All-store :
      (P : R → Type 0) (rec : R) (records : List R)
      → P rec
      → All P records
      → All P (store rec records)
  unfolding store
  All-store P rec records p ps =
      if_elim (All P) (contains (key rec) records) (λ _. All-overwrite P rec records p ps)
        (λ _. All-append P records (rec ∷ []) ps (p, tt))
