-- ===== src/Fs/Sizes.antt =====
-- `sum_dir_bytes` of crates/skeg-rigging-skeg/src/tenant.rs.
use skeg_rigging.Base.{ℕ, ◌+◌, Option, none, some, length, add_u64, as_u64}
use skeg_rigging.Text.Paths.{FilePath, child}
use skeg_rigging.Fs.{lists, visits, stats, Fault, Faults}
use skeg_rigging.Fs.Tree.{Dirs, Item, file, folder, other, Items, nil, item}

module _ (faults : Faults) where
  unfoldable mutual
    pub item_bytes : FilePath → Item → ℕ → ℕ
    item_bytes path (file bytes) total = elim (faults (stats path)) [
      | some e ↦ total
      | none ↦ add_u64 total (as_u64 (length bytes))
    ]
    item_bytes path (folder items) total = elim (faults (lists path)) [
      | some e ↦ add_u64 total 0
      | none ↦ add_u64 total (items_bytes path items 0)
    ]
    item_bytes path other total = total

    -- An entry that cannot be read, or whose type cannot, is passed over.
    pub items_bytes : FilePath → Items → ℕ → ℕ
    items_bytes path nil total = total
    items_bytes path (item name x items) total = elim (faults (visits (child path name))) [
      | some e ↦ items_bytes path items total
      | none ↦ items_bytes path items (item_bytes (child path name) x total)
    ]

  abbrev dir_bytes : FilePath → Option Fault → Option Items → ℕ
  dir_bytes path (some e) items = 0
  dir_bytes path none none = 0
  dir_bytes path none (some items) = items_bytes path items 0

  unfoldable pub sum_dir_bytes : FilePath → Dirs → ℕ
  unfolding items_bytes
  sum_dir_bytes path dirs = dir_bytes path (faults (lists path)) (dirs path)

-- The bytes of all files, at any depth.
unfoldable mutual
  pub file_bytes : Item → ℕ
  file_bytes (file bytes) = length bytes
  file_bytes (folder items) = total_bytes items
  file_bytes other = 0

  pub total_bytes : Items → ℕ
  total_bytes nil = 0
  total_bytes (item name x items) = file_bytes x + total_bytes items
