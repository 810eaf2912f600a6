-- ===== src/Text/Paths.antt =====
-- `std::path`, as far as the ingest uses it: a path is the list of its components.
use skeg_rigging.Base.{
  ◌≡◌, refl, arith, ==_iff, Bool, true, false, ◌&&◌, ◌||◌, Option, none, some, List, [], ◌∷◌, ◌++◌,
  ltb, ◌==◌, if◌then◌else◌,
}
use skeg_rigging.Text.{Str, text_eq}

abbrev pub FilePath : Type 0
FilePath = List Str

-- `to_string_lossy`; an absolute path has an empty first component.
unfoldable pub path_text : FilePath → Str
path_text [] = []
path_text (x ∷ []) = x
path_text (x ∷ y ∷ p) = x ++ b'/' ∷ path_text (y ∷ p)

-- `dir.join(name)`, which is also the path of a directory's entry.
abbrev pub child : FilePath → Str → FilePath
child dir name = dir ++ name ∷ []

-- `file.strip_prefix(root)`
unfoldable pub strip_prefix : FilePath → FilePath → Option FilePath
unfolding text_eq
strip_prefix [] file = some file
strip_prefix (x ∷ root) [] = none
strip_prefix (x ∷ root) (y ∷ file) = if text_eq x y then strip_prefix root file else none

-- `file_name`: the last component.
unfoldable pub file_name : FilePath → Option Str
file_name [] = none
file_name (x ∷ []) = some x
file_name (x ∷ y ∷ p) = file_name (y ∷ p)

-- What stands behind the last dot of a text, and whether there is anything before it.
after_dot : Str → Option Str
after_dot [] = none
after_dot (c ∷ s) = elim (after_dot s) [
  | some ext ↦ some ext
  | none ↦ if c == b'.' then some s else none
]

-- A name has no extension if its only dot is in front.
name_extension : Str → Option Str
unfolding after_dot
name_extension [] = none
name_extension (c ∷ s) = after_dot s

abbrev and_then : Option Str → (Str → Option Str) → Option Str
and_then none f = none
and_then (some x) f = f x

unfoldable pub extension : FilePath → Option Str
unfolding file_name name_extension
extension file = and_then (file_name file) name_extension

unfoldable pub starts_with : Str → Str → Bool
starts_with [] s = true
starts_with (c ∷ t) [] = false
starts_with (c ∷ t) (d ∷ s) = c == d && starts_with t s

-- `s.contains(t)`
unfoldable pub contains : Str → Str → Bool
unfolding starts_with
contains t [] = starts_with t []
contains t (c ∷ s) = starts_with t (c ∷ s) || contains t s

-- `a > b` for two components, and for two paths.
unfoldable pub text_gt : Str → Str → Bool
text_gt [] t = false
text_gt (c ∷ s) [] = true
text_gt (c ∷ s) (d ∷ t) = ltb d c || (c == d && text_gt s t)

unfoldable pub path_gt : FilePath → FilePath → Bool
unfolding text_gt text_eq
path_gt [] q = false
path_gt (x ∷ p) [] = true
path_gt (x ∷ p) (y ∷ q) = text_gt x y || (text_eq x y && path_gt p q)

-- `a == b`, by the components.
unfoldable pub path_eq : FilePath → FilePath → Bool
unfolding text_eq
path_eq [] [] = true
path_eq (x ∷ p) (y ∷ q) = text_eq x y && path_eq p q
path_eq _ _ = false

pub text_eq_refl : (s : Str) → text_eq s s ≡ true
unfolding text_eq
text_eq_refl [] = refl
text_eq_refl (c ∷ s) = ground (arith, text_eq_refl s, ==_iff c c)

pub path_eq_refl : (p : FilePath) → path_eq p p ≡ true
unfolding path_eq
path_eq_refl [] = refl
path_eq_refl (x ∷ p) = ground (arith, text_eq_refl x, path_eq_refl p)
