-- ===== src/Text/Words.antt =====
-- `str::split_whitespace`
use skeg_rigging.Base.{List, [], ◌∷◌, ◌++◌, if◌then◌else◌}
use skeg_rigging.Text.{Str, is_whitespace}

-- A word that is not empty.
abbrev word : Str → List Str
word [] = []
word (c ∷ s) = (c ∷ s) ∷ []

words_from : Str → Str → List Str
words_from w [] = word w
words_from w (c ∷ s) =
    let rest = words_from (if is_whitespace c then [] else w ++ c ∷ []) s in
    if is_whitespace c then word w ++ rest else rest

unfoldable pub split_whitespace : Str → List Str
unfolding words_from is_whitespace
split_whitespace s = words_from [] s
