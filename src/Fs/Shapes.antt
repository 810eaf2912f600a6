-- ===== src/Fs/Shapes.antt =====
-- Clones and trees after a file is set, and clones of clones.
use skeg_rigging.Base.{ℕ, ◌≡◌, refl, ap, ◌∙◌, false, none, some, List, arith, if_elim, [], ◌∷◌}
use skeg_rigging.Text.{Str, text_eq}
use skeg_rigging.Text.Paths.{FilePath, path_eq}
use skeg_rigging.Fs.Tree.{
  Item, file, folder, other, Items, nil, item, find_item, set_item, text_eq-eq,
}
use skeg_rigging.Fs.Clones.{clone, clone_item, IsTree, IsNode, text_eq_comm}

pub path_eq_comm : (p q : FilePath) → path_eq p q ≡ path_eq q p
unfolding path_eq
path_eq_comm [] [] = refl
path_eq_comm [] (y ∷ q) = refl
path_eq_comm (x ∷ p) [] = refl
path_eq_comm (x ∷ p) (y ∷ q) = rw (text_eq_comm x y, path_eq_comm p q)

mutual
  clone_item-clone :
      (name : Str) (x : Item) (rest : Items)
      → clone (clone_item name x rest) ≡ clone_item name x (clone rest)
  clone_item-clone name (file bytes) rest = refl
  clone_item-clone name (folder es) rest =
      ap (λ o. item name (folder o) (clone rest)) (clone-clone es)
  clone_item-clone name other rest = refl

  pub clone-clone : (items : Items) → clone (clone items) ≡ clone items
  clone-clone nil = refl
  clone-clone (item name x items) =
      clone_item-clone name x (clone items) ∙ ap (clone_item name x) (clone-clone items)

find_item-clone_item :
    (name asked : Str) (x : Item) (rest : Items)
    → text_eq name asked ≡ false
    → find_item asked (clone_item name x rest) ≡ find_item asked rest
unfolding find_item
find_item-clone_item name asked (file bytes) rest h = rw h
find_item-clone_item name asked (folder es) rest h = rw h
find_item-clone_item name asked other rest h = refl

-- A file is in the clone.
pub find_item-clone :
    (name : Str) (bytes : List ℕ) (items : Items)
    → find_item name items ≡ some (file bytes)
    → find_item name (clone items) ≡ some (file bytes)
unfolding find_item
find_item-clone name bytes nil h = cc
find_item-clone name bytes (item n (file b) items) h =
    ground (arith, find_item-clone name bytes items)
find_item-clone name bytes (item n (folder es) items) h =
    ground (arith, find_item-clone name bytes items)
find_item-clone name bytes (item n other items) h = ground (arith, find_item-clone name bytes items)

-- Setting a file changes no other name of the clone.
pub clone-set_item :
    (name asked : Str) (bytes : List ℕ) (items : Items)
    → text_eq name asked ≡ false
    → find_item asked (clone (set_item name (file bytes) items)) ≡ find_item asked (clone items)
unfolding find_item set_item
clone-set_item name asked bytes nil h = rw h
clone-set_item name asked bytes (item n (file b) items) h =
    ground (arith, clone-set_item name asked bytes items, text_eq-eq n name)
clone-set_item name asked bytes (item n (folder es) items) h =
    ground (arith, clone-set_item name asked bytes items, text_eq-eq n name)
clone-set_item name asked bytes (item n other items) h =
    ground (arith, clone-set_item name asked bytes items, text_eq-eq n name)

find_item_absent :
    (name asked : Str) (x : Item) (items : Items)
    → text_eq name asked ≡ false
    → find_item asked items ≡ none
    → find_item asked (set_item name x items) ≡ none
unfolding find_item set_item
find_item_absent name asked x nil h k = rw h
find_item_absent name asked x (item n y items) h k =
    ground (arith, find_item_absent name asked x items)

-- A tree stays a tree when a file is set.
pub set_item-IsTree :
    (name : Str) (bytes : List ℕ) (items : Items)
    → IsTree items
    → IsTree (set_item name (file bytes) items)
unfolding find_item set_item
set_item-IsTree name bytes nil t = (refl, tt, tt)
set_item-IsTree name bytes (item n y items) t =
    if_elim IsTree (text_eq n name) (λ same. (t.0, tt, t.2))
      (λ fresh. (
        find_item_absent name n (file bytes) items (text_eq_comm name n ∙ fresh) t.0,
        t.1,
        set_item-IsTree name bytes items t.2,
      ))

find_item_cloned :
    (name : Str) (items : Items) → find_item name items ≡ none → find_item name (clone items) ≡ none
unfolding find_item
find_item_cloned name nil h = refl
find_item_cloned name (item n x items) h =
    find_item-clone_item n name x (clone items) (ground arith)
    ∙ find_item_cloned name items (ground arith)

mutual
  clone_item-IsTree :
      (name : Str) (x : Item) (rest : Items)
      → IsNode x
      → find_item name rest ≡ none
      → IsTree rest
      → IsTree (clone_item name x rest)
  clone_item-IsTree name (file bytes) rest n h t = (h, tt, t)
  clone_item-IsTree name (folder es) rest n h t = (h, clone-IsTree es n, t)
  clone_item-IsTree name other rest n h t = t

  -- The clone of a tree is a tree.
  pub clone-IsTree : (items : Items) → IsTree items → IsTree (clone items)
  clone-IsTree nil t = tt
  clone-IsTree (item name x items) t =
      clone_item-IsTree name x (clone items) t.1 (find_item_cloned name items t.0)
        (clone-IsTree items t.2)
