-- ===== src/Base/Sort.antt =====
-- `slice::sort_by`, the stable sort: any stable sort by a total preorder has this result.
pub mod Unique
use mathlib.Core.List.{Perm}
use mathlib.Core.List.Perm
use skeg_rigging.Base.{
  ◌≡◌, ◌∙◌, ap, refl, Bool, true, false, List, [], ◌∷◌, ℕ, zero, suc, take, drop, All, All-take,
  All-drop, if_elim, Bool-cases, inl, inr, arith, if◌then◌else◌, length,
}

-- `greater x y` is `compare(x, y) == Greater`.
module _ {ℓ} {A : Type ℓ} (greater : A → A → Bool) where
  unfoldable pub place : A → List A → List A
  place x [] = x ∷ []
  place x (y ∷ ys) = if greater x y then y ∷ place x ys else x ∷ y ∷ ys

  unfoldable pub sort : List A → List A
  unfolding place
  sort [] = []
  sort (x ∷ xs) = place x (sort xs)

  abbrev pub Sorted : List A → Type 0
  Sorted [] = Unit
  Sorted (x ∷ xs) = All (λ y. greater x y ≡ false) xs × Sorted xs

  place-perm : (x : A) (ys : List A) → Perm (place x ys) (x ∷ ys)
  unfolding place
  place-perm x [] = Perm.refl (x ∷ [])
  place-perm x (y ∷ ys) = elim (Bool-cases (greater x y)) [
    | inl later ↦ rw later (Perm.trans (Perm.cons y (place-perm x ys)) (Perm.swap x y ys))
    | inr here ↦ rw here (Perm.refl (x ∷ y ∷ ys))
  ]

  pub sort-perm : (xs : List A) → Perm (sort xs) xs
  unfolding sort
  sort-perm [] = Perm.refl []
  sort-perm (x ∷ xs) = Perm.trans (place-perm x (sort xs)) (Perm.cons x (sort-perm xs))

  length-place : (x : A) (ys : List A) → length (place x ys) ≡ suc (length ys)
  unfolding place
  length-place x [] = refl
  length-place x (y ∷ ys) = ground (arith, length-place x ys)

  pub length-sort : (xs : List A) → length (sort xs) ≡ length xs
  unfolding sort
  length-sort [] = refl
  length-sort (x ∷ xs) = length-place x (sort xs) ∙ ap suc (length-sort xs)

  -- In a sorted list nothing behind the first `n` elements is before one of them.
  pub Sorted-take :
      (n : ℕ) (xs : List A)
      → Sorted xs
      → Sorted (take n xs) × All (λ x. All (λ y. greater x y ≡ false) (drop n xs)) (take n xs)
  Sorted-take zero xs s = (tt, tt)
  Sorted-take (suc n) [] s = (tt, tt)
  Sorted-take (suc n) (x ∷ xs) s =
      let (front, behind) = Sorted-take n xs s.1 in
      (
        (All-take (λ y. greater x y ≡ false) n xs s.0, front),
        (All-drop (λ y. greater x y ≡ false) n xs s.0, behind),
      )

  All-place : (P : A → Type 0) (x : A) (ys : List A) → P x → All P ys → All P (place x ys)
  unfolding place
  All-place P x [] px ps = (px, tt)
  All-place P x (y ∷ ys) px ps =
      if_elim (All P) (greater x y) (λ _. (ps.0, All-place P x ys px ps.1)) (λ _. (px, ps))

  pub All-sort : (P : A → Type 0) (xs : List A) → All P xs → All P (sort xs)
  unfolding sort
  All-sort P [] ps = tt
  All-sort P (x ∷ xs) ps = All-place P x (sort xs) ps.0 (All-sort P xs ps.1)

-- The comparison is total, and transitive on the elements that satisfy `P`.
module _ {ℓ} {A : Type ℓ} (greater : A → A → Bool) (P : A → Type 0)
    (asymm : (a b : A) → greater a b ≡ true → greater b a ≡ false)
    (trans : (a b c : A)
      → P a
      → P b
      → P c
      → greater a b ≡ false
      → greater b c ≡ false
      → greater a c ≡ false) where
  below :
      (x y : A) (ys : List A)
      → P x
      → P y
      → greater x y ≡ false
      → All P ys
      → All (λ z. greater y z ≡ false) ys
      → All (λ z. greater x z ≡ false) ys
  below x y [] px py xy ps h = tt
  below x y (z ∷ zs) px py xy ps h = (trans x y z px py ps.0 xy h.0, below x y zs px py xy ps.1 h.1)

  place-Sorted :
      (x : A) (ys : List A)
      → P x
      → All P ys
      → Sorted greater ys
      → Sorted greater (place greater x ys)
  unfolding place
  place-Sorted x [] px ps s = (tt, tt)
  place-Sorted x (y ∷ ys) px ps s =
      if_elim (Sorted greater) (greater x y)
        (λ later. (
          All-place greater (λ z. greater y z ≡ false) x ys (asymm x y later) s.0,
          place-Sorted x ys px ps.1 s.1,
        ))
        (λ here. ((here, below x y ys px ps.0 here ps.1 s.0), s))

  pub sort-Sorted : (xs : List A) → All P xs → Sorted greater (sort greater xs)
  unfolding sort
  sort-Sorted [] ps = tt
  sort-Sorted (x ∷ xs) ps =
      place-Sorted x (sort greater xs) ps.0 (All-sort greater P xs ps.1) (sort-Sorted xs ps.1)
