-- ===== src/Tests/Interrupted.antt =====
-- Calls that fail halfway: a restore that stops behind the sidecar's file and is tried again, a flush
-- whose write stops, and an open that cannot see the sidecar.
use skeg_rigging.Base.{ℕ, ◌≡◌, refl, some, none, List, [], ◌∷◌, ok, err, false, if◌then◌else◌}
use skeg_rigging.Error.{TenantError}
use skeg_rigging.Text.{codes}
use skeg_rigging.Text.Paths.{FilePath, child, path_eq}
use skeg_rigging.Fs.{
  Faults, copies, writes, stats, exists, missing, create_dir_all, read_dir, read_file, write_file,
}
use skeg_rigging.Fs.Tree.{Dirs, find_item, set_item}
use skeg_rigging.Fs.Copy.{copy_dir_contents}
use skeg_rigging.Tenant.Lifecycle.{
  Host, already_exists, restore_copy, restore_from, flush, open_tenant, open_created, reopen,
  create, index_exists, new_tenant, read_from_path, write_to_path,
}
use skeg_rigging.Tenant.Sidecar.{empty}
use skeg_rigging.Tests.Hosts.{vectors_name, Index-ids, host}
use skeg_rigging.Tests.Lifecycles.{here, id, tenant, flushed}

abbrev copy_fault : Faults
copy_fault (copies src dest) =
    if path_eq src (child here vectors_name)
    then some (record { error = missing; torn = none; rest = none })
    else none
copy_fault _ = none

abbrev faulty : Host (List ℕ)
faulty = record host { faults = copy_fault }

abbrev fresh : FilePath
fresh = codes "n" ∷ []

abbrev halfway : Dirs
halfway = (restore_from faulty here fresh flushed).1

stopped : (restore_from faulty here fresh flushed).0 ≡ err (TenantError.io missing)
unfolding restore_from exists path_eq find_item restore_copy create_dir_all copy_dir_contents
    read_dir
stopped = refl

-- The retry has no fault.
refused : (restore_from host here fresh halfway).0 ≡ err already_exists
unfolding restore_from exists path_eq find_item restore_copy create_dir_all copy_dir_contents
    read_dir set_item
refused = refl

-- The disk is full: the write truncates the sidecar's file and stops behind its first byte.
abbrev full : Faults
full (writes path) = some (record { error = missing; torn = some (2 ∷ []); rest = none })
full _ = none

abbrev torn : Dirs
torn = (flush (record host { faults = full }) tenant flushed).1

-- A later open, with no fault, finds neither the old sidecar nor the new one.
unreadable :
    ((flush (record host { faults = full }) tenant flushed).0 ≡ err (TenantError.io missing))
    × ((open_tenant host here id 2 torn).0 ≡ err TenantError.json)
unfolding flush path_eq find_item write_to_path write_file set_item open_tenant create_dir_all
    open_created exists reopen read_from_path read_file
unreadable = (refl, refl)

-- `meta.json` is there, and asking for it fails.
abbrev unseen : Faults
unseen (stats path) = some (record { error = missing; torn = none; rest = none })
unseen _ = none

abbrev blind : Host (List ℕ)
blind = record host { faults = unseen }

-- The open succeeds, and has written an empty sidecar over the one that was there.
overwritten :
    ((open_tenant blind here id 2 flushed).0 ≡ ok (new_tenant [] (empty id 2) id 2 here false))
    × ((read_from_path host here (open_tenant blind here id 2 flushed).1).0 ≡ ok (empty id 2))
unfolding open_tenant create_dir_all open_created exists index_exists create write_to_path path_eq
    find_item write_file set_item read_from_path read_file empty
overwritten = (refl, refl)
