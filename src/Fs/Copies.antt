-- ===== src/Fs/Copies.antt =====
-- `copy_dir_contents` and `sum_dir_bytes` of crates/skeg-rigging-skeg/src/tenant.rs on whole
-- directories.
use skeg_rigging.Base.{ℕ, ◌+◌, ◌%◌, ◌^◌, ◌<◌, ◌≡◌, refl, ap, ◌∙◌, some, ok, arith}
use skeg_rigging.Text.{Str}
use skeg_rigging.Text.Paths.{FilePath, child}
use skeg_rigging.Fs.{lists, visits, stats, Faults, update_dir, read_dir}
use skeg_rigging.Fs.Tree.{Dirs, Item, file, folder, other, Items, nil, item}
use skeg_rigging.Fs.Copy.{copy_items, copy_dir_contents}
use skeg_rigging.Fs.Sizes.{item_bytes, items_bytes, sum_dir_bytes, file_bytes, total_bytes}
use skeg_rigging.Fs.Clones.{
  clone, clone_item, IsTree, NoFaults, Fresh-nil, copy_items-clone, copy_items-ok,
}

module _ (faults : Faults) where
  copy_dir_contents-step :
      (src dest : FilePath) (dirs : Dirs) (items : Items)
      → dirs src ≡ some items
      → dirs dest ≡ some nil
      → (copy_dir_contents faults src dest dirs).0 ≡ ok tt
      → ((copy_items faults src dest items nil).0 ≡ ok tt)
        × ((copy_dir_contents faults src dest dirs).1
            ≡ update_dir dest (some (copy_items faults src dest items nil).1) dirs)
  unfolding copy_dir_contents read_dir
  copy_dir_contents-step src dest dirs items found empty done = ground arith

  -- A copy into an empty directory that succeeds, of a source with no name twice in a directory,
  -- leaves there its files and folders, and changes no other directory.
  pub copy_dir_contents-clone :
      (src dest : FilePath) (dirs : Dirs) (items : Items)
      → IsTree items
      → dirs src ≡ some items
      → dirs dest ≡ some nil
      → (copy_dir_contents faults src dest dirs).0 ≡ ok tt
      → (copy_dir_contents faults src dest dirs).1 ≡ update_dir dest (some (clone items)) dirs
  unfolding copy_dir_contents read_dir
  copy_dir_contents-clone src dest dirs items t found empty done =
      let copied = copy_items-clone faults src dest items nil t (Fresh-nil items) in
      let (ran, placed) = copy_dir_contents-step src dest dirs items found empty done in
      placed ∙ ap (λ out. update_dir dest (some out) dirs) (copied ran)

  pub copy_dir_contents-ok :
      (src dest : FilePath) (dirs : Dirs) (items : Items)
      → NoFaults faults
      → IsTree items
      → dirs src ≡ some items
      → dirs dest ≡ some nil
      → (copy_dir_contents faults src dest dirs).0 ≡ ok tt
  unfolding copy_dir_contents read_dir
  copy_dir_contents-ok src dest dirs items calm t found empty =
      ground
        (arith, calm (lists src), copy_items-ok faults src dest items nil calm t (Fresh-nil items))

  mutual
    unfolding items_bytes total_bytes

    item_bytes-file_bytes :
        (path : FilePath) (x : Item) (total : ℕ)
        → NoFaults faults
        → total < 2 ^ 64
        → item_bytes faults path x total ≡ (total + file_bytes x) % 2 ^ 64
    item_bytes-file_bytes path (file bytes) total calm h = ground (arith, calm (stats path))
    item_bytes-file_bytes path (folder items) total calm h =
        ground (arith, calm (lists path), items_bytes-total_bytes path items 0 calm)
    item_bytes-file_bytes path other total calm h = ground arith

    items_bytes-total_bytes :
        (path : FilePath) (items : Items) (total : ℕ)
        → NoFaults faults
        → total < 2 ^ 64
        → items_bytes faults path items total ≡ (total + total_bytes items) % 2 ^ 64
    items_bytes-total_bytes path nil total calm h = ground arith
    items_bytes-total_bytes path (item name x items) total calm h = ground (
      arith,
      calm (visits (child path name)),
      item_bytes-file_bytes (child path name) x total calm h,
      items_bytes-total_bytes path items ((total + file_bytes x) % 2 ^ 64) calm,
    )

  -- With no fault the walk counts the bytes of every file at any depth.
  sum_dir_bytes-total_bytes :
      (path : FilePath) (dirs : Dirs) (items : Items)
      → NoFaults faults
      → dirs path ≡ some items
      → sum_dir_bytes faults path dirs ≡ total_bytes items % 2 ^ 64
  unfolding sum_dir_bytes
  sum_dir_bytes-total_bytes path dirs items calm found =
      ground (arith, calm (lists path), items_bytes-total_bytes path items 0 calm)

mutual
  unfolding total_bytes

  total_bytes-clone_item :
      (name : Str) (x : Item) (rest : Items)
      → total_bytes (clone_item name x rest) ≡ file_bytes x + total_bytes rest
  total_bytes-clone_item name (file bytes) rest = refl
  total_bytes-clone_item name (folder items) rest = omega (arith, total_bytes-clone items)
  total_bytes-clone_item name other rest = omega arith

  -- A clone has as many bytes.
  total_bytes-clone : (items : Items) → total_bytes (clone items) ≡ total_bytes items
  total_bytes-clone nil = refl
  total_bytes-clone (item name x items) =
      omega (arith, total_bytes-clone_item name x (clone items), total_bytes-clone items)
