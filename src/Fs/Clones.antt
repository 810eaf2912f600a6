-- ===== src/Fs/Clones.antt =====
-- What `copy_dir_contents` of crates/skeg-rigging-skeg/src/tenant.rs leaves in an empty directory.
use skeg_rigging.Base.{◌≡◌, refl, sym, ap, ◌∙◌, false, none, [], ◌∷◌, Result, ok, arith, ==_iff}
use skeg_rigging.Text.{Str, text_eq}
use skeg_rigging.Text.Paths.{FilePath, child}
use skeg_rigging.Error.{IoError}
use skeg_rigging.Fs.{Access, creates, copies, lists, visits, Faults}
use skeg_rigging.Fs.Tree.{Item, file, folder, other, Items, nil, item, ◌+++◌, find_item, set_item}
use skeg_rigging.Fs.Copy.{copy_item, copy_items}

-- The files and folders, without what is neither.
abbrev mutual
  pub clone_item : Str → Item → Items → Items
  clone_item name (file bytes) rest = item name (file bytes) rest
  clone_item name (folder items) rest = item name (folder (clone items)) rest
  clone_item name other rest = rest

  pub clone : Items → Items
  clone nil = nil
  clone (item name x items) = clone_item name x (clone items)

-- No name twice in a directory, at any depth.
abbrev mutual
  pub IsNode : Item → Type 0
  IsNode (file bytes) = Unit
  IsNode (folder items) = IsTree items
  IsNode other = Unit

  pub IsTree : Items → Type 0
  IsTree nil = Unit
  IsTree (item name x items) = (find_item name items ≡ none) × IsNode x × IsTree items

-- No name of the first directory stands in the second.
abbrev pub Fresh : Items → Items → Type 0
Fresh nil out = Unit
Fresh (item name x items) out = (find_item name out ≡ none) × Fresh items out

pub text_eq_comm : (s t : Str) → text_eq s t ≡ text_eq t s
unfolding text_eq
text_eq_comm [] [] = refl
text_eq_comm [] (d ∷ t) = refl
text_eq_comm (c ∷ s) [] = refl
text_eq_comm (c ∷ s) (d ∷ t) = ground (arith, ==_iff c d, ==_iff d c, text_eq_comm s t)

set_item_fresh :
    (name : Str) (x : Item) (out : Items)
    → find_item name out ≡ none
    → set_item name x out ≡ out +++ item name x nil
unfolding find_item set_item
set_item_fresh name x nil h = refl
set_item_fresh name x (item n y out) h = ground (arith, set_item_fresh name x out)

find_item-push :
    (name asked : Str) (x : Item) (out : Items)
    → text_eq name asked ≡ false
    → find_item asked out ≡ none
    → find_item asked (out +++ item name x nil) ≡ none
unfolding find_item
find_item-push name asked x nil h k = rw h
find_item-push name asked x (item n y out) h k = ground (arith, find_item-push name asked x out)

Fresh-push :
    (name : Str) (x : Item) (items out : Items)
    → find_item name items ≡ none
    → Fresh items out
    → Fresh items (out +++ item name x nil)
unfolding find_item
Fresh-push name x nil out h f = tt
Fresh-push name x (item n y items) out h f = (
  find_item-push name n x out (text_eq_comm name n ∙ ground arith) f.0,
  Fresh-push name x items out (ground arith) f.1,
)

append_nil : (out : Items) → out +++ nil ≡ out
append_nil nil = refl
append_nil (item n y out) = ap (item n y) (append_nil out)

append-append : (out mid more : Items) → (out +++ mid) +++ more ≡ out +++ (mid +++ more)
append-append nil mid more = refl
append-append (item n y out) mid more = ap (item n y) (append-append out mid more)

clone_item-append :
    (name : Str) (x : Item) (out rest : Items)
    → (out +++ clone_item name x nil) +++ rest ≡ out +++ clone_item name x rest
clone_item-append name (file bytes) out rest = append-append out _ rest
clone_item-append name (folder items) out rest = append-append out _ rest
clone_item-append name other out rest = ap (λ o. o +++ rest) (append_nil out)

Fresh-clone_item :
    (name : Str) (x : Item) (items out : Items)
    → find_item name items ≡ none
    → Fresh items out
    → Fresh items (out +++ clone_item name x nil)
Fresh-clone_item name (file bytes) items out h f = Fresh-push name _ items out h f
Fresh-clone_item name (folder es) items out h f = Fresh-push name _ items out h f
Fresh-clone_item name other items out h f = rw append_nil f

pub Fresh-nil : (items : Items) → Fresh items nil
unfolding find_item
Fresh-nil nil = tt
Fresh-nil (item n x items) = (refl, Fresh-nil items)

abbrev Run : Type 0
Run = Result IoError (Unit {0}) × Items

-- Every access succeeds.
abbrev pub NoFaults : Faults → Type 0
NoFaults faults = (a : Access) → faults a ≡ none

module _ (faults : Faults) where
  copy_items-step :
      (src dest : FilePath) (name : Str) (x : Item) (items out : Items)
      → (copy_items faults src dest (item name x items) out).0 ≡ ok tt
      → ((copy_item faults src dest name x out).0 ≡ ok tt)
        × (copy_items faults src dest (item name x items) out
            ≡ copy_items faults src dest items (copy_item faults src dest name x out).1)
  unfolding copy_items
  copy_items-step src dest name x items out done = ground arith

  mutual
    unfolding copy_items

    copy_item-clone_item :
        (src dest : FilePath) (name : Str) (x : Item) (out : Items)
        → IsNode x
        → find_item name out ≡ none
        → (copy_item faults src dest name x out).0 ≡ ok tt
        → (copy_item faults src dest name x out).1 ≡ out +++ clone_item name x nil
    copy_item-clone_item src dest name (file bytes) out t h done =
        ground (arith, set_item_fresh name (file bytes) out)
    copy_item-clone_item src dest name (folder items) out t h done = ground (
      arith,
      copy_items-clone (child src name) (child dest name) items nil t (Fresh-nil items),
      set_item_fresh name (folder (clone items)) out,
    )
    copy_item-clone_item src dest name other out t h done = sym (append_nil out)

    pub copy_items-clone :
        (src dest : FilePath) (items out : Items)
        → IsTree items
        → Fresh items out
        → (copy_items faults src dest items out).0 ≡ ok tt
        → (copy_items faults src dest items out).1 ≡ out +++ clone items
    copy_items-clone src dest nil out t f done = sym (append_nil out)
    copy_items-clone src dest (item name x items) out t f done =
        let (done_item, step) = copy_items-step src dest name x items out done in
        let whole : copy_items faults src dest (item name x items) out
            ≡ copy_items faults src dest items (out +++ clone_item name x nil) =
          step
          ∙ ap (copy_items faults src dest items)
              (copy_item-clone_item src dest name x out t.1 f.0 done_item) in
        ap (λ (o : Run). o.1) whole
        ∙ copy_items-clone src dest items (out +++ clone_item name x nil) t.2
            (Fresh-clone_item name x items out t.0 f.1) (ap (λ (o : Run). o.0) (sym whole) ∙ done)
        ∙ clone_item-append name x out (clone items)

  -- With no fault, everything is copied.
  mutual
    unfolding copy_items

    copy_item-ok :
        (src dest : FilePath) (name : Str) (x : Item) (out : Items)
        → NoFaults faults
        → IsNode x
        → find_item name out ≡ none
        → (copy_item faults src dest name x out).0 ≡ ok tt
    copy_item-ok src dest name (file bytes) out calm t h =
        ground (arith, calm (copies (child src name) (child dest name)))
    copy_item-ok src dest name (folder items) out calm t h = ground (
      arith,
      calm (creates (child dest name)),
      calm (lists (child src name)),
      copy_items-ok (child src name) (child dest name) items nil calm t (Fresh-nil items),
    )
    copy_item-ok src dest name other out calm t h = refl

    pub copy_items-ok :
        (src dest : FilePath) (items out : Items)
        → NoFaults faults
        → IsTree items
        → Fresh items out
        → (copy_items faults src dest items out).0 ≡ ok tt
    copy_items-ok src dest nil out calm t f = refl
    copy_items-ok src dest (item name x items) out calm t f =
        let first = copy_item-ok src dest name x out calm t.1 f.0 in
        let copied = copy_item-clone_item src dest name x out t.1 f.0 first in
        let rest =
          copy_items-ok src dest items (out +++ clone_item name x nil) calm t.2
            (Fresh-clone_item name x items out t.0 f.1) in
        ground (arith, calm (visits (child src name)), first, copied, rest)
