-- ===== src/Base/Keyed/Maps.antt =====
-- Vectors of records with a unique key, over functions that keep the key, and predicates that hold
-- of the records with another key.
use skeg_rigging.Base.{
  ℕ, ◌≡◌, ◌≢◌, refl, sym, ap, ◌∙◌, false, List, [], ◌∷◌, ◌++◌, map, arith, ◌==◌, ==_iff, Bool-cases,
  inl, inr, All, All-append, if_elim,
}
use skeg_rigging.Base.Keyed.{contains, overwrite, store, remove, Distinct}

module _ {ℓ κ} {R : Type ℓ} {S : Type κ} (key : R → ℕ) (key' : S → ℕ) where
  contains_alike :
      (id : ℕ) (records : List R) (others : List S)
      → map key records ≡ map key' others
      → contains key id records ≡ contains key' id others
  contains_alike id [] [] h = refl
  contains_alike id [] (s ∷ others) h = absurd (cc)
  contains_alike id (r ∷ records) [] h = absurd (cc)
  contains_alike id (r ∷ records) (s ∷ others) h =
      ground (arith, contains_alike id records others cc)

  -- Uniqueness is one of the keys alone.
  pub Distinct-alike :
      (records : List R) (others : List S)
      → map key records ≡ map key' others
      → Distinct key records
      → Distinct key' others
  Distinct-alike [] [] h d = tt
  Distinct-alike [] (s ∷ others) h d = absurd (cc)
  Distinct-alike (r ∷ records) [] h d = absurd (cc)
  Distinct-alike (r ∷ records) (s ∷ others) h d =
      let rest : map key records ≡ map key' others = cc in
      (
        ground (arith, contains_alike (key r) records others rest),
        Distinct-alike records others rest d.1,
      )

-- A function that keeps the key commutes with the changes.
module _ {ℓ κ} {R : Type ℓ} {S : Type κ} (key : S → ℕ) (g : R → S) where
  contains-map :
      (id : ℕ) (records : List R)
      → contains key id (map g records) ≡ contains (λ r. key (g r)) id records
  contains-map id [] = refl
  contains-map id (r ∷ records) = ground (arith, contains-map id records)

  overwrite-map :
      (rec : R) (records : List R)
      → overwrite key (g rec) (map g records) ≡ map g (overwrite (λ r. key (g r)) rec records)
  unfolding overwrite
  overwrite-map rec [] = refl
  overwrite-map rec (r ∷ records) = elim (Bool-cases (key (g r) == key (g rec))) [
    | inl same ↦ rw same refl
    | inr other ↦ rw other (ap (◌∷◌ (g r)) (overwrite-map rec records))
  ]

  push-map :
      (rec : R) (records : List R) → map g records ++ g rec ∷ [] ≡ map g (records ++ rec ∷ [])
  push-map rec [] = refl
  push-map rec (r ∷ records) = ap (◌∷◌ (g r)) (push-map rec records)

  pub store-map :
      (rec : R) (records : List R)
      → store key (g rec) (map g records) ≡ map g (store (λ r. key (g r)) rec records)
  unfolding store
  store-map rec records = elim (Bool-cases (contains (λ r. key (g r)) (key (g rec)) records)) [
    | inl there ↦ rw (contains-map (key (g rec)) records, there) (overwrite-map rec records)
    | inr fresh ↦ rw (contains-map (key (g rec)) records, fresh) (push-map rec records)
  ]

  pub remove-map :
      (id : ℕ) (records : List R)
      → remove key id (map g records) ≡ map g (remove (λ r. key (g r)) id records)
  remove-map id [] = refl
  remove-map id (r ∷ records) = elim (Bool-cases (key (g r) == id)) [
    | inl same ↦ rw same (remove-map id records)
    | inr other ↦ rw other (ap (◌∷◌ (g r)) (remove-map id records))
  ]

module _ {ℓ} {R : Type ℓ} (key : R → ℕ) (P : R → Type 0) where
  -- `P` holds of the records with another key.
  abbrev pub Elsewhere : ℕ → R → Type 0
  Elsewhere k r = key r ≢ k → P r

  All-fresh :
      (k : ℕ) (records : List R)
      → contains key k records ≡ false
      → All (Elsewhere k) records
      → All P records
  All-fresh k [] h ps = tt
  All-fresh k (r ∷ records) h ps =
      (ps.0 (ground (arith, h, ==_iff (key r) k)), All-fresh k records (ground (arith, h)) ps.1)

  All-overwrite_ne :
      (rec : R) (records : List R)
      → Distinct key records
      → P rec
      → All (Elsewhere (key rec)) records
      → All P (overwrite key rec records)
  unfolding overwrite
  All-overwrite_ne rec [] d p ps = tt
  All-overwrite_ne rec (r ∷ records) d p ps = elim (Bool-cases (key r == key rec)) [
    | inl same ↦
        let fresh : contains key (key rec) records ≡ false =
          ap (λ k. contains key k records) (sym ((==_iff (key r) (key rec)).0 same)) ∙ d.0 in
        rw same (p, All-fresh (key rec) records fresh ps.1)
    | inr other ↦ rw other (
      ps.0 (ground (arith, other, ==_iff (key r) (key rec))),
      All-overwrite_ne rec records d.1 p ps.1,
    )
  ]

  -- Under a unique key, the record that is replaced need not satisfy `P`.
  pub All-store_ne :
      (rec : R) (records : List R)
      → Distinct key records
      → P rec
      → All (Elsewhere (key rec)) records
      → All P (store key rec records)
  unfolding store
  All-store_ne rec records d p ps =
      if_elim (All P) (contains key (key rec) records) (λ _. All-overwrite_ne rec records d p ps)
        (λ fresh. All-append P records (rec ∷ []) (All-fresh (key rec) records fresh ps) (p, tt))
