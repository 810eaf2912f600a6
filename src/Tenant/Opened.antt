-- ===== src/Tenant/Opened.antt =====
-- What `open` of crates/skeg-rigging-skeg/src/tenant.rs leaves on disk, in each of its branches.
use mathlib.Core.Path.{subst}
use skeg_rigging.Base.{
  ℕ, ◌≡◌, refl, sym, ap, ◌∙◌, true, false, Bool-cases, inl, inr, Option, none, some, List, Result,
  ok, err, ==_iff, as_u32, arith,
}
use skeg_rigging.Ids.{TenantId}
use skeg_rigging.Text.{Str}
use skeg_rigging.Text.Paths.{FilePath, child}
use skeg_rigging.Error.{IoError, TenantError}
use skeg_rigging.Fs.{
  read_file, create_dir_all, write_file, write_in, Faults, stats, exists, exists-true, exists-seen,
  exists_in, update_dir_self,
}
use skeg_rigging.Fs.Tree.{Dirs, file, Items, set_item, find_item-set_item}
use skeg_rigging.Fs.Effects.{Io, ◌>>=◌, pure, map_err, ok_or, map_result-ok, >>=-ok}
use skeg_rigging.Tenant.{Tenant}
use skeg_rigging.Tenant.Sidecar.{MetadataSidecar, empty}
use skeg_rigging.Tenant.Lifecycle.{
  Host, meta_name, default_l_search, check_dim, new_tenant, read_from_path, write_to_path,
  index_exists, reopen, adopt, create, open_created, open_tenant,
}

module _ {I : Type 0} (host : Host I) where
  -- A write that succeeds leaves the file.
  write_in-exists :
      (dir : FilePath) (name : Str) (bytes : List ℕ) (items : Option Items) (dirs : Dirs)
      → (write_in dir name bytes items dirs).0 ≡ ok tt
      → exists_in dir name (write_in dir name bytes items dirs).1 ≡ true
  write_in-exists dir name bytes none dirs h = absurd (cc)
  write_in-exists dir name bytes (some items) dirs h = ground (
    arith,
    update_dir_self dir (some (set_item name (file bytes) items)) dirs,
    find_item-set_item name (file bytes) items,
  )

  write_file-exists :
      (dir : FilePath) (name : Str) (bytes : List ℕ) (dirs dirs' : Dirs)
      → write_file host.faults dir name bytes dirs ≡ (ok tt, dirs')
      → exists_in dir name dirs' ≡ true
  unfolding write_file
  write_file-exists dir name bytes dirs dirs' h =
      ground (arith, write_in-exists dir name bytes (dirs dir) dirs)

  write_to_path-exists :
      (s : MetadataSidecar) (dir : FilePath) (dirs dirs' : Dirs)
      → write_to_path host s dir dirs ≡ (ok tt, dirs')
      → exists_in dir meta_name dirs' ≡ true
  unfolding write_to_path
  write_to_path-exists s dir dirs dirs' h =
      let write : List ℕ → Io TenantError (Unit {0}) =
        λ bytes. map_err TenantError.io (write_file host.faults dir meta_name bytes) in
      let (bytes, mid, _, wrote) =
        >>=-ok (ok_or TenantError.json (host.to_vec s)) write dirs dirs' tt h in
      write_file-exists dir meta_name bytes mid dirs' (
        map_result-ok TenantError.io (write_file host.faults dir meta_name bytes mid) tt dirs'
          wrote)

  -- What an `open` that succeeds is known to give.
  abbrev pub IsOpened : FilePath → ℕ → Tenant I → Dirs → Type 0
  IsOpened dir dim t dirs =
      (exists_in dir meta_name dirs ≡ true)
      × (t.dir ≡ dir)
      × (t.read_only ≡ false)
      × (t.embedding_dim ≡ dim)
      × (t.sidecar.embedding_dim ≡ dim)

  abbrev write_empty : FilePath → TenantId → ℕ → I → Io TenantError (Tenant I)
  write_empty dir tenant_id dim idx = do
    _ ← write_to_path host (empty tenant_id dim) dir
    pure (new_tenant idx (empty tenant_id dim) tenant_id dim dir false)

  abbrev Opens : FilePath → ℕ → Result TenantError (Tenant I) × Dirs → Type 0
  Opens dir dim (err failure, dirs) = Unit
  Opens dir dim (ok t, dirs) = IsOpened dir dim t dirs

  IsOpened-pure :
      (dir : FilePath) (dim : ℕ) (t t' : Tenant I) (dirs dirs' : Dirs)
      → IsOpened dir dim t dirs
      → pure {E = TenantError} t dirs ≡ (ok t', dirs')
      → IsOpened dir dim t' dirs'
  IsOpened-pure dir dim t t' dirs dirs' o h = subst (Opens dir dim) h o

  write_empty-IsOpened :
      (dir : FilePath) (tenant_id : TenantId) (dim : ℕ) (idx : I) (dirs dirs' : Dirs) (t : Tenant I)
      → write_empty dir tenant_id dim idx dirs ≡ (ok t, dirs')
      → IsOpened dir dim t dirs'
  unfolding empty
  write_empty-IsOpened dir tenant_id dim idx dirs dirs' t h =
      let new = new_tenant idx (empty tenant_id dim) tenant_id dim dir false in
      let (_, mid, wrote, done) =
        >>=-ok (write_to_path host (empty tenant_id dim) dir) (λ _. pure new) dirs dirs' t h in
      IsOpened-pure dir dim new t mid dirs'
        (write_to_path-exists (empty tenant_id dim) dir dirs mid wrote, refl, refl, refl, refl) done

  check_dim-ok :
      (on_disk requested : ℕ) (dirs dirs' : Dirs)
      → check_dim on_disk requested dirs ≡ (ok tt, dirs')
      → (on_disk ≡ requested) × (dirs ≡ dirs')
  check_dim-ok on_disk requested dirs dirs' h = ground (arith, ==_iff on_disk requested)

  create-IsOpened :
      (dir : FilePath) (tenant_id : TenantId) (dim : ℕ) (dirs dirs' : Dirs) (t : Tenant I)
      → create host dir tenant_id dim dirs ≡ (ok t, dirs')
      → IsOpened dir dim t dirs'
  unfolding create
  create-IsOpened dir tenant_id dim dirs dirs' t h =
      let (idx, mid, _, more) =
        >>=-ok (map_err TenantError.io (host.create_empty dir dim default_l_search))
          (write_empty dir tenant_id dim) dirs dirs' t h in
      write_empty-IsOpened dir tenant_id dim idx mid dirs' t more

  adopt-IsOpened :
      (dir : FilePath) (tenant_id : TenantId) (dim : ℕ) (dirs dirs' : Dirs) (t : Tenant I)
      → adopt host dir tenant_id dim dirs ≡ (ok t, dirs')
      → IsOpened dir dim t dirs'
  unfolding adopt
  adopt-IsOpened dir tenant_id dim dirs dirs' t h =
      let checked : I → Io TenantError (Tenant I) =
        λ idx. check_dim (as_u32 (host.dim idx)) dim >>= (λ _. write_empty dir tenant_id dim idx) in
      let (idx, mid, _, more) =
        >>=-ok (map_err TenantError.io (host.open_index dir)) checked dirs dirs' t h in
      let (_, mid', _, last) =
        >>=-ok (check_dim (as_u32 (host.dim idx)) dim) (λ _. write_empty dir tenant_id dim idx) mid
          dirs' t more in
      write_empty-IsOpened dir tenant_id dim idx mid' dirs' t last

  -- The opening of an index leaves `meta.json` where it is.
  abbrev pub KeepsSidecar : Type 0
  KeepsSidecar =
      (dir : FilePath) (dirs : Dirs)
      → exists_in dir meta_name (host.open_index dir dirs).1 ≡ exists_in dir meta_name dirs

  read_from_path-same : (dir : FilePath) (dirs : Dirs) → (read_from_path host dir dirs).1 ≡ dirs
  unfolding read_from_path read_file
  read_from_path-same dir dirs = ground arith

  reopen-IsOpened :
      (dir : FilePath) (tenant_id : TenantId) (dim : ℕ) (dirs dirs' : Dirs) (t : Tenant I)
      → KeepsSidecar
      → exists_in dir meta_name dirs ≡ true
      → reopen host dir tenant_id dim dirs ≡ (ok t, dirs')
      → IsOpened dir dim t dirs'
  unfolding reopen
  reopen-IsOpened dir tenant_id dim dirs dirs' t keeps there h =
      let end : MetadataSidecar → I → Io TenantError (Tenant I) = λ loaded idx.
        check_dim (as_u32 (host.dim idx)) dim
        >>= (λ _. pure (new_tenant idx loaded tenant_id dim dir false)) in
      let after : MetadataSidecar → Io TenantError (Tenant I) =
        λ loaded. map_err TenantError.io (host.open_index dir) >>= end loaded in
      let rest : MetadataSidecar → Io TenantError (Tenant I) =
        λ loaded. check_dim loaded.embedding_dim dim >>= (λ _. after loaded) in
      let (loaded, d1, loading, h1) = >>=-ok (read_from_path host dir) rest dirs dirs' t h in
      let (_, d2, checked, h2) =
        >>=-ok (check_dim loaded.embedding_dim dim) (λ _. after loaded) d1 dirs' t h1 in
      let (idx, d3, opened, h3) =
        >>=-ok (map_err TenantError.io (host.open_index dir)) (end loaded) d2 dirs' t h2 in
      let (_, d4, sized, h4) =
        >>=-ok (check_dim (as_u32 (host.dim idx)) dim)
          (λ _. pure (new_tenant idx loaded tenant_id dim dir false)) d3 dirs' t h3 in
      let same1 : dirs ≡ d1 =
        sym (read_from_path-same dir dirs)
        ∙ ap (λ (o : Result TenantError MetadataSidecar × Dirs). o.1) loading in
      let (dims, same2) = check_dim-ok loaded.embedding_dim dim d1 d2 checked in
      let same4 = (check_dim-ok (as_u32 (host.dim idx)) dim d3 d4 sized).1 in
      let got = map_result-ok TenantError.io (host.open_index dir d2) idx d3 opened in
      let kept : exists_in dir meta_name d4 ≡ true =
        ap (exists_in dir meta_name) (sym same4)
        ∙ ap (λ (o : Result IoError I × Dirs). exists_in dir meta_name o.1) (sym got)
        ∙ keeps dir d2
        ∙ ap (exists_in dir meta_name) (sym same2 ∙ sym same1)
        ∙ there in
      IsOpened-pure dir dim (new_tenant idx loaded tenant_id dim dir false) t d4 dirs'
        (kept, refl, refl, refl, dims) h4

  open_created-IsOpened :
      (dir : FilePath) (tenant_id : TenantId) (dim : ℕ) (dirs dirs' : Dirs) (t : Tenant I)
      → KeepsSidecar
      → open_created host dir tenant_id dim dirs ≡ (ok t, dirs')
      → IsOpened dir dim t dirs'
  unfolding open_created
  open_created-IsOpened dir tenant_id dim dirs dirs' t keeps h =
      elim (Bool-cases (exists host.faults dir meta_name dirs)) [
        | inl there ↦
            reopen-IsOpened dir tenant_id dim dirs dirs' t keeps
              (exists-true host.faults dir meta_name dirs there) (ground arith)
        | inr absent ↦ elim (Bool-cases (index_exists host.faults dir dirs)) [
          | inl indexed ↦ adopt-IsOpened dir tenant_id dim dirs dirs' t (ground arith)
          | inr fresh ↦ create-IsOpened dir tenant_id dim dirs dirs' t (ground arith)
        ]
      ]

  -- Whichever branch it takes, an `open` that succeeds leaves the sidecar's file in the directory,
  -- and gives a tenant for it that may write, with the dimension asked for in the tenant and in its
  -- sidecar; so a later `open` there reads the sidecar back and creates nothing, whatever else fails
  -- then, if only it can see the file.
  pub open_tenant-IsOpened :
      (dir : FilePath) (tenant_id : TenantId) (dim : ℕ) (dirs dirs' : Dirs) (t : Tenant I)
      (later : Faults)
      → KeepsSidecar
      → later (stats (child dir meta_name)) ≡ none
      → open_tenant host dir tenant_id dim dirs ≡ (ok t, dirs')
      → IsOpened dir dim t dirs'
        × (open_created (record host { faults = later }) dir tenant_id dim dirs'
            ≡ reopen (record host { faults = later }) dir tenant_id dim dirs')
  unfolding open_tenant open_created
  open_tenant-IsOpened dir tenant_id dim dirs dirs' t later keeps seen h =
      let (_, made, _, more) =
        >>=-ok (map_err TenantError.io (create_dir_all host.faults dir))
          (λ _. open_created host dir tenant_id dim) dirs dirs' t h in
      let opened = open_created-IsOpened dir tenant_id dim made dirs' t keeps more in
      (opened, rw (exists-seen later dir meta_name dirs' seen ∙ opened.0) refl)
