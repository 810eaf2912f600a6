-- ===== src/Base/Sort/Unique.antt =====
-- By an order in which no two elements are alike, a list sorts as its permutations do.
use mathlib.Core.List.{Perm}
use mathlib.Core.List.{Permᴰ}
use mathlib.Core.List.Permᴰ
use mathlib.Core.List.{is_set}
use mathlib.Core.Logic.{∥∥₁_elim, ∥∥₁_map}
use skeg_rigging.Base.{
  ◌≡◌, refl, sym, ap, ◌∙◌, Bool, true, false, List, [], ◌∷◌, filter, Bool-cases, inl, inr, arith,
}
use skeg_rigging.Base.Sort.{place, sort}

-- `greater` is the strict part of a linear order.
pub record Linear {A : Type 0} (greater : A → A → Bool) : Type 0 where
  pub asymm : (a b : A) → greater a b ≡ true → greater b a ≡ false
  pub antisym : (a b : A) → greater a b ≡ false → greater b a ≡ false → a ≡ b
  pub le_trans : (a b c : A) → greater a b ≡ false → greater b c ≡ false → greater a c ≡ false

module _ {A : Type 0} (greater : A → A → Bool) (linear : Linear greater) where
  place-place :
      (a b : A) (zs : List A)
      → place greater a (place greater b zs) ≡ place greater b (place greater a zs)
  unfolding place
  place-place a b [] = ground (arith, linear.asymm a b, linear.asymm b a, linear.antisym a b)
  place-place a b (z ∷ zs) = ground (
    arith,
    place-place a b zs,
    linear.asymm a b,
    linear.asymm b a,
    linear.antisym a b,
    linear.le_trans a b z,
    linear.le_trans b a z,
  )

  sort-Permᴰ : (xs ys : List A) → Permᴰ xs ys → sort greater xs ≡ sort greater ys
  unfolding sort
  sort-Permᴰ _ _ Permᴰ.nil = refl
  sort-Permᴰ (x ∷ xs) (y ∷ ys) (Permᴰ.cons e p) =
      ap (λ a. place greater a (sort greater xs)) e ∙ ap (place greater y) (sort-Permᴰ xs ys p)
  sort-Permᴰ (a ∷ b ∷ l) (a' ∷ b' ∷ _) (Permᴰ.swap e e') =
      place-place a b (sort greater l)
      ∙ ap (λ x. place greater x (place greater a (sort greater l))) e'
      ∙ ap (λ x. place greater a' (place greater x (sort greater l))) e
  sort-Permᴰ xs zs (Permᴰ.trans {l₂ = ys} p q) = sort-Permᴰ xs ys p ∙ sort-Permᴰ ys zs q

  -- The order of the list that is sorted does not matter.
  pub sort-Perm : IsSet A → (xs ys : List A) → Perm xs ys → sort greater xs ≡ sort greater ys
  sort-Perm set xs ys p = ∥∥₁_elim p (is_set set _ _) (λ d. sort-Permᴰ xs ys d)

module _ {A : Type 0} (p : A → Bool) where
  filter-Permᴰ : (xs ys : List A) → Permᴰ xs ys → Permᴰ (filter p xs) (filter p ys)
  filter-Permᴰ _ _ Permᴰ.nil = Permᴰ.nil
  filter-Permᴰ (x ∷ xs) (y ∷ ys) (Permᴰ.cons e d) = elim (Bool-cases (p x)) [
    | inl taken ↦ rw (taken, ap p (sym e) ∙ taken) (Permᴰ.cons e (filter-Permᴰ xs ys d))
    | inr dropped ↦ rw (dropped, ap p (sym e) ∙ dropped) (filter-Permᴰ xs ys d)
  ]
  filter-Permᴰ (a ∷ b ∷ l) (a' ∷ b' ∷ _) (Permᴰ.swap e e') =
      let left : p b' ≡ p a = ap p (sym e) in
      let right : p a' ≡ p b = ap p (sym e') in
      elim (Bool-cases (p a)) [
        | inl first ↦ elim (Bool-cases (p b)) [
          | inl second ↦ rw (left, right, first, second) (Permᴰ.swap e e')
          | inr second ↦ rw (left, right, first, second) (Permᴰ.cons e (Permᴰ.refl (filter p l)))
        ]
        | inr first ↦ elim (Bool-cases (p b)) [
          | inl second ↦ rw (left, right, first, second) (Permᴰ.cons e' (Permᴰ.refl (filter p l)))
          | inr second ↦ rw (left, right, first, second) (Permᴰ.refl (filter p l))
        ]
      ]
  filter-Permᴰ xs zs (Permᴰ.trans {l₂ = ys} d e) =
      Permᴰ.trans (filter-Permᴰ xs ys d) (filter-Permᴰ ys zs e)

  pub Perm-filter : {xs ys : List A} → Perm xs ys → Perm (filter p xs) (filter p ys)
  Perm-filter {xs = xs} {ys = ys} d = ∥∥₁_map d (filter-Permᴰ xs ys)
