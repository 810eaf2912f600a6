-- ===== src/Fs.antt =====
-- `std::fs`, as far as crates/skeg-rigging-skeg calls it on the directories of tenants: a map from
-- paths to contents, of which no path is inside another. Any call may fail, as the table `Faults`
-- says, which also tells what it leaves: a write or a copy truncates its file first, and can leave it
-- with any bytes, and a removal can leave any part of the directory.
pub mod Tree
pub mod Effects
pub mod Copy
pub mod Sizes
pub mod Clones
pub mod Copies
pub mod Shapes
use skeg_rigging.Base.{
  ℕ, Bool, true, false, Option, none, some, List, [], ◌∷◌, Result, ok, err, if◌then◌else◌, ◌≡◌,
  refl, arith,
}
use skeg_rigging.Text.{Str}
use skeg_rigging.Text.Paths.{FilePath, child, path_eq, path_eq_refl}
use skeg_rigging.Error
use skeg_rigging.Error.{ErrorKind, IoError, not_found, unlisted}
use skeg_rigging.Fs.Effects.{Io}
use skeg_rigging.Fs.Tree.{Dirs, Item, Items, nil, find_item, set_item}

-- `visits` is what the loop over a listing asks of one entry, `stats` what `exists` and `metadata`
-- ask.
pub data Access : Type 0 where
  creates lists visits removes reads writes stats : FilePath → Access
  copies : FilePath → FilePath → Access

-- An error; the bytes in the file of a write or of a copy that failed once the file was open; and what
-- is left of a directory whose removal failed on the way.
pub record Fault : Type 0 where
  pub error : IoError
  pub torn : Option (List ℕ)
  pub rest : Option Items

abbrev pub Faults : Type 0
Faults = Access → Option Fault

abbrev pub update_dir : FilePath → Option Items → Dirs → Dirs
update_dir path items dirs asked = if path_eq path asked then items else dirs asked

pub update_dir_self :
    (path : FilePath) (items : Option Items) (dirs : Dirs) → update_dir path items dirs path ≡ items
update_dir_self path items dirs = rw path_eq_refl

abbrev pub or_err : {E A : Type 0} → E → Option A → Result E A
or_err e none = err e
or_err e (some a) = ok a

abbrev pub missing : IoError
missing = record { kind = ErrorKind.not_found }

-- What std reports for an entry of the wrong kind.
abbrev pub wrong_kind : IoError
wrong_kind = record { kind = unlisted 0 }

-- No fault, or the error that is set for the access.
abbrev pub allowed : Option IoError → Result IoError (Unit {0})
allowed none = ok tt
allowed (some e) = err e

abbrev items_or_nil : Option Items → Items
items_or_nil none = nil
items_or_nil (some items) = items

abbrev pub find_in : Str → Option Items → Option Item
find_in name none = none
find_in name (some items) = find_item name items

abbrev bytes_of : Option Item → Result IoError (List ℕ)
bytes_of none = err missing
bytes_of (some (Item.file bytes)) = ok bytes
bytes_of (some _) = err wrong_kind

-- `std::fs::write` into a directory that holds some items.
abbrev pub put_file : Str → List ℕ → Option Item → Items → Result IoError (Unit {0}) × Items
put_file name bytes none items = (ok tt, set_item name (Item.file bytes) items)
put_file name bytes (some (Item.file _)) items = (ok tt, set_item name (Item.file bytes) items)
put_file name bytes (some _) items = (err wrong_kind, items)

abbrev pub write_in :
    FilePath → Str → List ℕ → Option Items → Dirs → Result IoError (Unit {0}) × Dirs
write_in path name bytes none dirs = (err missing, dirs)
write_in path name bytes (some items) dirs =
    let (result, items') = put_file name bytes (find_item name items) items in
    (result, update_dir path (some items') dirs)

-- What a write leaves of a directory, and a removal, that fails.
abbrev pub tear_file : Str → Option (List ℕ) → Items → Items
tear_file name none items = items
tear_file name (some bytes) items = (put_file name bytes (find_item name items) items).1

abbrev tear_in : FilePath → Str → Option (List ℕ) → Option Items → Dirs → Dirs
tear_in path name torn none dirs = dirs
tear_in path name none (some items) dirs = dirs
tear_in path name (some bytes) (some items) dirs =
    update_dir path (some (tear_file name (some bytes) items)) dirs

abbrev remove_part : FilePath → Option Items → Option Items → Dirs → Dirs
remove_part path (some rest) (some items) dirs = update_dir path (some rest) dirs
remove_part path _ _ dirs = dirs

-- Whether a directory is there, and an entry of a directory.
abbrev pub is_dir : Option Items → Bool
is_dir none = false
is_dir (some _) = true

abbrev pub is_there : Option Item → Bool
is_there none = false
is_there (some _) = true

abbrev pub exists_in : FilePath → Str → Dirs → Bool
exists_in path name dirs = is_there (find_in name (dirs path))

module _ (faults : Faults) where
  -- `path.exists()`, which answers false on an error, for a directory and for an entry of one.
  unfoldable pub exists_dir : FilePath → Dirs → Bool
  exists_dir path dirs = elim (faults (stats path)) [ some _ ↦ false | none ↦ is_dir (dirs path) ]

  unfoldable pub exists : FilePath → Str → Dirs → Bool
  exists path name dirs = elim (faults (stats (child path name))) [
    | some _ ↦ false
    | none ↦ exists_in path name dirs
  ]

  -- What it finds is there, and with no fault it finds what is there.
  pub exists-true :
      (path : FilePath) (name : Str) (dirs : Dirs)
      → exists path name dirs ≡ true
      → exists_in path name dirs ≡ true
  unfolding exists
  exists-true path name dirs h = ground arith

  pub exists-seen :
      (path : FilePath) (name : Str) (dirs : Dirs)
      → faults (stats (child path name)) ≡ none
      → exists path name dirs ≡ exists_in path name dirs
  unfolding exists
  exists-seen path name dirs seen = ground (arith, seen)

  unfoldable pub create_dir_all : FilePath → Io IoError (Unit {0})
  create_dir_all path dirs = elim (faults (creates path)) [
    | some x ↦ (err x.error, dirs)
    | none ↦ (ok tt, update_dir path (some (items_or_nil (dirs path))) dirs)
  ]

  unfoldable pub read_file : FilePath → Str → Io IoError (List ℕ)
  read_file path name dirs = elim (faults (reads (child path name))) [
    | some x ↦ (err x.error, dirs)
    | none ↦ (bytes_of (find_in name (dirs path)), dirs)
  ]

  unfoldable pub write_file : FilePath → Str → List ℕ → Io IoError (Unit {0})
  write_file path name bytes dirs = elim (faults (writes (child path name))) [
    | some x ↦ (err x.error, tear_in path name x.torn (dirs path) dirs)
    | none ↦ write_in path name bytes (dirs path) dirs
  ]

  -- The listing of a directory.
  unfoldable pub read_dir : FilePath → Io IoError Items
  read_dir path dirs = elim (faults (lists path)) [
    | some x ↦ (err x.error, dirs)
    | none ↦ (or_err missing (dirs path), dirs)
  ]

  unfoldable pub remove_dir_all : FilePath → Io IoError (Unit {0})
  remove_dir_all path dirs = elim (faults (removes path)) [
    | some x ↦ (err x.error, remove_part path x.rest (dirs path) dirs)
    | none ↦ elim (dirs path) [
      | none ↦ (err missing, dirs)
      | some _ ↦ (ok tt, update_dir path none dirs)
    ]
  ]
