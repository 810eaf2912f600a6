-- ===== src/Text/Lines.antt =====
-- `str::lines`, `[&str]::join` and `str::trim().is_empty()`.
use skeg_rigging.Base.{
  Bool, true, false, ◌&&◌, List, [], ◌∷◌, ◌++◌, ◌==◌, ◌≡◌, refl, arith, if◌then◌else◌,
}
use skeg_rigging.Text.{Str, is_whitespace}

-- A `\r` before the line feed belongs to the line's end.
unfoldable pub strip_cr : Str → Str
strip_cr [] = []
strip_cr (c ∷ []) = if c == 0xD then [] else c ∷ []
strip_cr (c ∷ d ∷ s) = c ∷ strip_cr (d ∷ s)

-- What stands behind the last line feed is a line if it is not empty.
abbrev last_line : Str → List Str
last_line [] = []
last_line (c ∷ s) = (c ∷ s) ∷ []

lines_from : Str → Str → List Str
lines_from line [] = last_line line
lines_from line (c ∷ s) =
    let rest = lines_from (if c == 0xA then [] else line ++ c ∷ []) s in
    if c == 0xA then strip_cr line ∷ rest else rest

unfoldable pub lines : Str → List Str
unfolding lines_from strip_cr
lines s = lines_from [] s

-- `join("\n")`
unfoldable pub join : List Str → Str
join [] = []
join (x ∷ []) = x
join (x ∷ y ∷ r) = x ++ 0xA ∷ join (y ∷ r)

-- `trim().is_empty()`: there is nothing but white space.
unfoldable pub is_blank : Str → Bool
is_blank [] = true
is_blank (c ∷ s) = is_whitespace c && is_blank s

pub is_blank-append : (s t : Str) → is_blank (s ++ t) ≡ (is_blank s && is_blank t)
unfolding is_blank
is_blank-append [] t = refl
is_blank-append (c ∷ s) t = ground (arith, is_blank-append s t)

-- Joined lines are blank only if the first one is.
pub is_blank-join : (x : Str) (r : List Str) → is_blank x ≡ false → is_blank (join (x ∷ r)) ≡ false
unfolding join
is_blank-join x [] h = h
is_blank-join x (y ∷ r) h = ground (arith, is_blank-append x (0xA ∷ join (y ∷ r)))
