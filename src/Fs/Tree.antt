-- ===== src/Fs/Tree.antt =====
-- What stands in a directory: named files, folders, and entries that are neither.
use skeg_rigging.Base.{
  ℕ, ◌≡◌, refl, true, false, Option, none, some, List, [], ◌∷◌, arith, ==_iff, if◌then◌else◌,
}
use skeg_rigging.Text.{Str, text_eq}
use skeg_rigging.Text.Paths.{FilePath, text_eq_refl}

mutual
  pub data Item : Type 0 where
    file : List ℕ → Item
    folder : Items → Item
    other : Item

  -- In the order in which `read_dir` lists them.
  pub data Items : Type 0 where
    nil : Items
    item : Str → Item → Items → Items

-- Paths of directories with their contents.
abbrev pub Dirs : Type 0
Dirs = FilePath → Option Items

unfoldable pub find_item : Str → Items → Option Item
find_item name nil = none
find_item name (item n x items) = if text_eq n name then some x else find_item name items

-- The item under a name is replaced, or a new one is put at the end.
unfoldable pub set_item : Str → Item → Items → Items
set_item name x nil = item name x nil
set_item name x (item n y items) =
    if text_eq n name then item n x items else item n y (set_item name x items)

abbrev pub ◌+++◌ : Items → Items → Items
nil +++ more = more
item n x items +++ more = item n x (items +++ more)

infixr 30 ◌+++◌
pub text_eq-eq : (s t : Str) → text_eq s t ≡ true → s ≡ t
unfolding text_eq
text_eq-eq [] [] h = refl
text_eq-eq [] (d ∷ t) h = cc
text_eq-eq (c ∷ s) [] h = cc
text_eq-eq (c ∷ s) (d ∷ t) h = ground (arith, ==_iff c d, text_eq-eq s t)

pub find_item-set_item :
    (name : Str) (x : Item) (items : Items) → find_item name (set_item name x items) ≡ some x
unfolding find_item set_item
find_item-set_item name x nil = rw text_eq_refl
find_item-set_item name x (item n y items) = ground (arith, find_item-set_item name x items)

pub find_item-set_item_ne :
    (name asked : Str) (x : Item) (items : Items)
    → text_eq name asked ≡ false
    → find_item asked (set_item name x items) ≡ find_item asked items
unfolding find_item set_item
find_item-set_item_ne name asked x nil h = rw h
find_item-set_item_ne name asked x (item n y items) h =
    ground (arith, find_item-set_item_ne name asked x items, text_eq-eq n name)
