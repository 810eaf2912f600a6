-- ===== src/Tenant/Destroyed.antt =====
-- What is left after `destroy` of crates/skeg-rigging-skeg/src/tenant.rs.
use skeg_rigging.Base.{◌≡◌, refl, false, none, some, ok, err, arith}
use skeg_rigging.Text.Paths.{FilePath, path_eq}
use skeg_rigging.Error.{OpenError, open_from_tenant}
use skeg_rigging.Fs.{removes, update_dir, update_dir_self, remove_dir_all}
use skeg_rigging.Fs.Tree.{Dirs, Items}
use skeg_rigging.Fs.Clones.{NoFaults}
use skeg_rigging.Tenant.{Tenant}
use skeg_rigging.Tenant.Reopen.{exists-absent}
use skeg_rigging.Tenant.Lifecycle.{Host, open_readonly_at, open_readonly, destroy}

module _ {I : Type 0} (host : Host I) where
  destroy-run :
      (t : Tenant I) (dirs : Dirs) (items : Items)
      → NoFaults host.faults
      → dirs t.dir ≡ some items
      → destroy host t dirs ≡ (ok tt, update_dir t.dir none dirs)
  unfolding destroy remove_dir_all
  destroy-run t dirs items calm found = ground (arith, calm (removes t.dir))

  -- With no fault a tenant that has a directory is destroyed: no directory is left at its path, so
  -- that opening it for reading finds no tenant, and every other directory stays as it was.
  pub destroy-open_readonly :
      (t : Tenant I) (dirs : Dirs) (items : Items) (path : FilePath)
      → NoFaults host.faults
      → dirs t.dir ≡ some items
      → path_eq t.dir path ≡ false
      → ((destroy host t dirs).0 ≡ ok tt)
        × ((open_readonly host t.dir (destroy host t dirs).1).0 ≡ err OpenError.not_found)
        × ((destroy host t dirs).1 path ≡ dirs path)
  unfolding open_readonly open_readonly_at open_from_tenant
  destroy-open_readonly t dirs items path calm found apart =
      rw (destroy-run t dirs items calm found) (
        refl,
        rw
            (exists-absent host.faults t.dir (update_dir t.dir none dirs) calm
              (update_dir_self t.dir none dirs))
            refl,
        rw apart refl,
      )
