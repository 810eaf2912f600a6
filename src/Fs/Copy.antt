-- ===== src/Fs/Copy.antt =====
-- `copy_dir_contents` of crates/skeg-rigging-skeg/src/tenant.rs. The two directories are apart: what is
-- written is not read again.
use skeg_rigging.Base.{Option, none, some, Result, ok, err}
use skeg_rigging.Text.{Str}
use skeg_rigging.Text.Paths.{FilePath, child}
use skeg_rigging.Error.{IoError}
use skeg_rigging.Fs.{
  creates, copies, lists, visits, tear_file, Faults, put_file, wrong_kind, update_dir, read_dir,
  missing,
}
use skeg_rigging.Fs.Effects.{Io}
use skeg_rigging.Fs.Tree.{Dirs, Item, file, folder, other, Items, nil, item, find_item, set_item}

-- The folder that `create_dir_all` finds or makes under a name.
abbrev pub sub_folder : Option Item → Result IoError Items
sub_folder none = ok nil
sub_folder (some (folder items)) = ok items
sub_folder (some _) = err wrong_kind

module _ (faults : Faults) where
  unfoldable mutual
    -- One entry of the source, onto what stands in the destination.
    pub copy_item : FilePath → FilePath → Str → Item → Items → Result IoError (Unit {0}) × Items
    copy_item src dest name (file bytes) out =
        elim (faults (copies (child src name) (child dest name))) [
          | some x ↦ (err x.error, tear_file name x.torn out)
          | none ↦ put_file name bytes (find_item name out) out
        ]
    copy_item src dest name (folder items) out = elim (faults (creates (child dest name))) [
      | some x ↦ (err x.error, out)
      | none ↦ elim (sub_folder (find_item name out)) [
        | err e ↦ (err e, out)
        | ok sub ↦ elim (faults (lists (child src name))) [
          | some x ↦ (err x.error, set_item name (folder sub) out)
          | none ↦
              let (result, sub') = copy_items (child src name) (child dest name) items sub in
              (result, set_item name (folder sub') out)
        ]
      ]
    ]
    copy_item src dest name other out = (ok tt, out)

    -- The loop: an entry that cannot be read, or whose type cannot, ends it.
    pub copy_items : FilePath → FilePath → Items → Items → Result IoError (Unit {0}) × Items
    copy_items src dest nil out = (ok tt, out)
    copy_items src dest (item name x items) out = elim (faults (visits (child src name))) [
      | some x ↦ (err x.error, out)
      | none ↦
          let (result, out') = copy_item src dest name x out in
          elim result [ err e ↦ (err e, out') | ok _ ↦ copy_items src dest items out' ]
    ]

  abbrev copy_onto :
      FilePath → FilePath → Option Items → Dirs → Items → Result IoError (Unit {0}) × Dirs
  copy_onto src dest none dirs items = (err missing, dirs)
  copy_onto src dest (some out) dirs items =
      let (result, out') = copy_items src dest items out in
      (result, update_dir dest (some out') dirs)

  unfoldable pub copy_dir_contents : FilePath → FilePath → Io IoError (Unit {0})
  unfolding copy_items
  copy_dir_contents src dest dirs =
      let (listed, dirs') = read_dir faults src dirs in
      elim listed [
        | err e ↦ (err e, dirs')
        | ok items ↦ copy_onto src dest (dirs' dest) dirs' items
      ]
