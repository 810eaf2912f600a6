-- ===== src/Tenant/Flushed.antt =====
-- A flush of crates/skeg-rigging-skeg/src/tenant.rs that succeeds leaves a sidecar that reads back.
use skeg_rigging.Base.{
  ℕ, ◌≡◌, refl, sym, ap, ◌∙◌, false, Option, none, some, List, Result, ok, Option-cases, inl, inr,
  arith,
}
use skeg_rigging.Text.{Str}
use skeg_rigging.Text.Paths.{FilePath, child}
use skeg_rigging.Error.{TenantError}
use skeg_rigging.Fs.{
  Faults, reads, put_file, write_in, find_in, write_file, read_file, update_dir_self,
}
use skeg_rigging.Fs.Tree.{
  Dirs, Item, file, folder, other, Items, find_item, set_item, find_item-set_item,
}
use skeg_rigging.Fs.Clones.{NoFaults}
use skeg_rigging.Tenant.{Tenant}
use skeg_rigging.Tenant.Sidecar.{MetadataSidecar}
use skeg_rigging.Tenant.Lifecycle.{Host, meta_name, read_from_path, write_to_path, flush}

put_file-inv :
    (name : Str) (bytes : List ℕ) (o : Option Item) (items : Items)
    → (put_file name bytes o items).0 ≡ ok tt
    → (put_file name bytes o items).1 ≡ set_item name (file bytes) items
put_file-inv name bytes none items h = refl
put_file-inv name bytes (some (file _)) items h = refl
put_file-inv name bytes (some (folder es)) items h = cc
put_file-inv name bytes (some other) items h = cc

write_in-stored :
    (path : FilePath) (name : Str) (bytes : List ℕ) (o : Option Items) (dirs : Dirs)
    → (write_in path name bytes o dirs).0 ≡ ok tt
    → find_in name ((write_in path name bytes o dirs).1 path) ≡ some (file bytes)
write_in-stored path name bytes none dirs h = cc
write_in-stored path name bytes (some items) dirs h =
    rw
      (
        update_dir_self path (some (put_file name bytes (find_item name items) items).1) dirs,
        put_file-inv name bytes (find_item name items) items h,
        find_item-set_item name (file bytes) items,
      )
      refl

write_file-stored :
    (faults : Faults) (path : FilePath) (name : Str) (bytes : List ℕ) (dirs : Dirs)
    → (write_file faults path name bytes dirs).0 ≡ ok tt
    → find_in name ((write_file faults path name bytes dirs).1 path) ≡ some (file bytes)
unfolding write_file
write_file-stored faults path name bytes dirs h =
    ground (arith, write_in-stored path name bytes (dirs path) dirs)

module _ {I : Type 0} (host : Host I) where
  write_to_path-stored :
      (s : MetadataSidecar) (dir : FilePath) (dirs : Dirs)
      → (write_to_path host s dir dirs).0 ≡ ok tt
      → (bytes : List ℕ) × (host.to_vec s ≡ some bytes)
        × (find_in meta_name ((write_to_path host s dir dirs).1 dir) ≡ some (file bytes))
  unfolding write_to_path
  write_to_path-stored s dir dirs h = elim (Option-cases (host.to_vec s)) [
    | inl absent ↦ absurd (ground (arith, absent))
    | inr (bytes, encoded) ↦ (
      bytes,
      encoded,
      ground (arith, encoded, write_file-stored host.faults dir meta_name bytes dirs),
    )
  ]

  -- After a flush that succeeds, the directory's sidecar reads back as the tenant's.
  pub flush-read_from_path :
      (t : Tenant I) (dirs dirs' : Dirs)
      → ((s : MetadataSidecar) (bytes : List ℕ)
          → host.to_vec s ≡ some bytes
          → host.from_slice bytes ≡ some s)
      → NoFaults host.faults
      → t.read_only ≡ false
      → flush host t dirs ≡ (ok tt, dirs')
      → read_from_path host t.dir dirs' ≡ (ok t.sidecar, dirs')
  unfolding flush read_from_path read_file
  flush-read_from_path t dirs dirs' json calm writable h =
      let written : write_to_path host t.sidecar t.dir dirs ≡ (ok tt, dirs') = ground arith in
      let (bytes, encoded, stored) =
        write_to_path-stored t.sidecar t.dir dirs
          (ap (λ (o : Result TenantError (Unit {0}) × Dirs). o.0) written) in
      let there : find_in meta_name (dirs' t.dir) ≡ some (file bytes) =
        ap (λ (o : Result TenantError (Unit {0}) × Dirs). find_in meta_name (o.1 t.dir))
          (sym written)
        ∙ stored in
      ground (arith, calm (reads (child t.dir meta_name)), there, json t.sidecar bytes encoded)
