-- ===== src/Fs/Effects.antt =====
-- Computations on the directories that may fail, composed by `?`. What was done before an error
-- stays.
use skeg_rigging.Base.{◌≡◌, refl, arith, Option, none, some, Result, ok, err}
use skeg_rigging.Fs.Tree.{Dirs}

abbrev pub Io : Type 0 → Type 0 → Type 0
Io E A = Dirs → Result E A × Dirs

abbrev pub continue : {E A B : Type 0} → Result E A × Dirs → (A → Io E B) → Result E B × Dirs
continue (err failure, dirs) next = (err failure, dirs)
continue (ok value, dirs) next = next value dirs

infixl 5 ◌>>=◌
abbrev pub ◌>>=◌ : {E A B : Type 0} → Io E A → (A → Io E B) → Io E B
◌>>=◌ m next dirs = continue (m dirs) next

abbrev pub pure : {E A : Type 0} → A → Io E A
pure a dirs = (ok a, dirs)

abbrev pub fail : {E A : Type 0} → E → Io E A
fail failure dirs = (err failure, dirs)

-- `map_err`, also that of `?` into another error type.
abbrev pub map_result : {E E' A : Type 0} → (E → E') → Result E A × Dirs → Result E' A × Dirs
map_result f (err failure, dirs) = (err (f failure), dirs)
map_result f (ok a, dirs) = (ok a, dirs)

abbrev pub map_err : {E E' A : Type 0} → (E → E') → Io E A → Io E' A
map_err f m dirs = map_result f (m dirs)

abbrev pub ok_or : {E A : Type 0} → E → Option A → Io E A
ok_or failure none = fail failure
ok_or failure (some a) = pure a

module _ {E A B : Type 0} where
  continue-ok :
      (first : Result E A × Dirs) (next : A → Io E B) (b : B) (dirs : Dirs)
      → continue first next ≡ (ok b, dirs)
      → (a : A) × (mid : Dirs) × (first ≡ (ok a, mid)) × (next a mid ≡ (ok b, dirs))
  continue-ok (err failure, mid) next b dirs h = absurd (cc)
  continue-ok (ok value, mid) next b dirs h = (value, mid, refl, h)

  -- What succeeds has a first part that succeeds.
  pub >>=-ok :
      (first : Io E A) (next : A → Io E B) (before after : Dirs) (b : B)
      → (first >>= next) before ≡ (ok b, after)
      → (a : A) × (mid : Dirs) × (first before ≡ (ok a, mid)) × (next a mid ≡ (ok b, after))
  >>=-ok first next before after b h = continue-ok (first before) next b after h

pub map_result-ok :
    {E E' A : Type 0} (f : E → E') (result : Result E A × Dirs) (a : A) (dirs : Dirs)
    → map_result f result ≡ (ok a, dirs)
    → result ≡ (ok a, dirs)
map_result-ok f (err failure, mid) a dirs h = absurd (cc)
map_result-ok f (ok value, mid) a dirs h = ground arith
