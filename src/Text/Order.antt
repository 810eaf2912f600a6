-- ===== src/Text/Order.antt =====
-- The order of texts and of paths (`Ord` of `str` and of `std::path::Path`) is linear.
use skeg_rigging.Base.{◌≡◌, refl, sym, ap, ◌∙◌, true, false, ◌&&◌, [], ◌∷◌, arith, ==_iff}
use skeg_rigging.Base.Sort.Unique.{Linear}
use skeg_rigging.Text.{Str, text_eq}
use skeg_rigging.Text.Paths.{FilePath, text_gt, path_gt, text_eq_refl}

text_gt_asymm : (s t : Str) → text_gt s t ≡ true → text_gt t s ≡ false
unfolding text_gt
text_gt_asymm [] t h = absurd (cc)
text_gt_asymm (c ∷ s) [] h = refl
text_gt_asymm (c ∷ s) (d ∷ t) h = ground (arith, text_gt_asymm s t, ==_iff c d, ==_iff d c)

text_gt_antisym : (s t : Str) → text_gt s t ≡ false → text_gt t s ≡ false → s ≡ t
unfolding text_gt
text_gt_antisym [] [] h k = refl
text_gt_antisym [] (d ∷ t) h k = absurd (cc)
text_gt_antisym (c ∷ s) [] h k = absurd (cc)
text_gt_antisym (c ∷ s) (d ∷ t) h k = ground (arith, text_gt_antisym s t, ==_iff c d, ==_iff d c)

text_gt_trans : (s t u : Str) → text_gt s t ≡ false → text_gt t u ≡ false → text_gt s u ≡ false
unfolding text_gt
text_gt_trans [] t u h k = refl
text_gt_trans (c ∷ s) [] u h k = absurd (cc)
text_gt_trans (c ∷ s) (d ∷ t) [] h k = absurd (cc)
text_gt_trans (c ∷ s) (d ∷ t) (x ∷ u) h k =
    ground (arith, text_gt_trans s t u, ==_iff c d, ==_iff d x, ==_iff c x)

text_eq_sound : (s t : Str) → text_eq s t ≡ true → s ≡ t
unfolding text_eq
text_eq_sound [] [] h = refl
text_eq_sound [] (d ∷ t) h = absurd (cc)
text_eq_sound (c ∷ s) [] h = absurd (cc)
text_eq_sound (c ∷ s) (d ∷ t) h = ground (arith, text_eq_sound s t, ==_iff c d)

text_eq_sym : (s t : Str) → text_eq s t ≡ text_eq t s
unfolding text_eq
text_eq_sym [] [] = refl
text_eq_sym [] (d ∷ t) = refl
text_eq_sym (c ∷ s) [] = refl
text_eq_sym (c ∷ s) (d ∷ t) = ground (arith, text_eq_sym s t, ==_iff c d, ==_iff d c)

-- Equal texts are in no order.
text_eq-gt : (s t : Str) → text_eq s t ≡ true → text_gt s t ≡ false
unfolding text_eq text_gt
text_eq-gt [] t h = refl
text_eq-gt (c ∷ s) [] h = absurd (cc)
text_eq-gt (c ∷ s) (d ∷ t) h = ground (arith, text_eq-gt s t, ==_iff c d)

-- One of three texts in order that is equal to the last is equal to that between.
text_eq_between :
    (s t u : Str)
    → text_gt s t ≡ false
    → text_gt t u ≡ false
    → text_eq s u ≡ true
    → (text_eq s t ≡ true) × (text_eq t u ≡ true)
text_eq_between s t u h k e =
    let whole : s ≡ u = text_eq_sound s u e in
    let back : text_gt t s ≡ false = ap (text_gt t) whole ∙ k in
    let first : s ≡ t = text_gt_antisym s t h back in
    (ap (text_eq s) (sym first) ∙ text_eq_refl s, ap (λ a. text_eq a u) (sym first) ∙ e)

-- The first components of paths that are in order are in order.
path_gt-first :
    (x y : Str) (p q : FilePath)
    → path_gt (x ∷ p) (y ∷ q) ≡ false
    → (text_gt x y ≡ false) × (text_eq x y && path_gt p q ≡ false)
unfolding path_gt
path_gt-first x y p q h = ground arith

path_gt_asymm : (p q : FilePath) → path_gt p q ≡ true → path_gt q p ≡ false
unfolding path_gt
path_gt_asymm [] q h = absurd (cc)
path_gt_asymm (x ∷ p) [] h = refl
path_gt_asymm (x ∷ p) (y ∷ q) h =
    ground
      (arith, text_gt_asymm x y, text_eq_sym x y, text_eq-gt x y, text_eq-gt y x, path_gt_asymm p q)

path_gt_antisym : (p q : FilePath) → path_gt p q ≡ false → path_gt q p ≡ false → p ≡ q
unfolding path_gt
path_gt_antisym [] [] h k = refl
path_gt_antisym [] (y ∷ q) h k = absurd (cc)
path_gt_antisym (x ∷ p) [] h k = absurd (cc)
path_gt_antisym (x ∷ p) (y ∷ q) h k =
    let (left, left_rest) = path_gt-first x y p q h in
    let (right, right_rest) = path_gt-first y x q p k in
    let first : x ≡ y = text_gt_antisym x y left right in
    let one : text_eq x y ≡ true = ap (text_eq x) (sym first) ∙ text_eq_refl x in
    let rest : p ≡ q =
      path_gt_antisym p q (ground (arith, one, left_rest))
        (ground (arith, one, text_eq_sym x y, right_rest)) in
    ap (λ a. a ∷ p) first ∙ ap (◌∷◌ y) rest

path_gt_trans : (p q r : FilePath) → path_gt p q ≡ false → path_gt q r ≡ false → path_gt p r ≡ false
unfolding path_gt
path_gt_trans [] q r h k = refl
path_gt_trans (x ∷ p) [] r h k = absurd (cc)
path_gt_trans (x ∷ p) (y ∷ q) [] h k = absurd (cc)
path_gt_trans (x ∷ p) (y ∷ q) (z ∷ r) h k =
    let (left, left_rest) = path_gt-first x y p q h in
    let (right, right_rest) = path_gt-first y z q r k in
    ground (
      arith,
      text_gt_trans x y z left right,
      text_eq_between x y z left right,
      left_rest,
      right_rest,
      path_gt_trans p q r,
    )

pub path_gt-Linear : Linear path_gt
path_gt-Linear = record {
  asymm = path_gt_asymm;
  antisym = path_gt_antisym;
  le_trans = path_gt_trans;
}
