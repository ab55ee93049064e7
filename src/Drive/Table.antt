-- ===== src/Drive/Table.antt =====
-- rdpdr/mod.rs: the backend's table of open files, and what keeps it in order.
use agent_rdp.Drive.{FilePath, Backend}
use agent_rdp.Drive.Paths.{is_name}
use agent_rdp.Base.{
  ℕ, ◌≡◌, refl, sym, ap, ◌∙◌, subst, ite, Bool, true, false, Option, some, List, ◌++◌, arith,
  ℕ_discrete, if◌then◌else◌, is_some, all, lookup, erase, insert, lookup-erase, lookup-insert,
  has-insert, has-erase,
}

-- The path is a drive's directory and then names only.
unfoldable pub IsBelow : List (ℕ × FilePath) → FilePath → Type 0
IsBelow drives path =
    (device : ℕ) × (base : FilePath) × (relative : FilePath) × (lookup ℕ_discrete device drives
      ≡ some base)
    × (path ≡ base ++ relative)
    × (all is_name relative ≡ true)

some-injective : (p q : FilePath) → some p ≡ some q → p ≡ q
some-injective p q e = cc

module _ {H I : Type 0} (drives : List (ℕ × FilePath)) where
  -- Every open file lies below a drive of those given; the maps of the handles, the paths and the
  -- devices have the same files, and only those have a listing or a mark for deletion.
  pub record IsTable (b : Backend H I) : Type 0 where
    pub same_drives : b.drive_paths ≡ drives
    pub below :
        (f : ℕ) (p : FilePath) → lookup ℕ_discrete f b.file_path_map ≡ some p → IsBelow drives p
    pub same_files :
        (f : ℕ)
        → is_some (lookup ℕ_discrete f b.file_map) ≡ is_some (lookup ℕ_discrete f b.file_path_map)
    pub same_devices :
        (f : ℕ)
        → is_some (lookup ℕ_discrete f b.file_device_map)
          ≡ is_some (lookup ℕ_discrete f b.file_path_map)
    pub listed_open :
        (f : ℕ)
        → is_some (lookup ℕ_discrete f b.file_dir_map) ≡ true
        → is_some (lookup ℕ_discrete f b.file_path_map) ≡ true
    pub marked_open :
        (f : ℕ)
        → is_some (lookup ℕ_discrete f b.delete_on_close) ≡ true
        → is_some (lookup ℕ_discrete f b.file_path_map) ≡ true

  module _ (b : Backend H I) (t : IsTable b) (file : ℕ) where
    either-below :
        (path : FilePath)
        → IsBelow drives path
        → (f : ℕ) (p : FilePath) (d : Dec (file ≡ f))
        → ite d (some path) (lookup ℕ_discrete f b.file_path_map) ≡ some p
        → IsBelow drives p
    either-below path h f p (yes x) e = subst (IsBelow drives) (some-injective path p e) h
    either-below path h f p (no x) e = t.below f p e

    path-below :
        (path : FilePath)
        → IsBelow drives path
        → (f : ℕ) (p : FilePath)
        → lookup ℕ_discrete f (insert ℕ_discrete file path b.file_path_map) ≡ some p
        → IsBelow drives p
    path-below path h f p e =
        either-below path h f p (ℕ_discrete file f)
          (sym (lookup-insert ℕ_discrete f file path b.file_path_map) ∙ e)

    -- A file that is put into all three maps, with its handle or none.
    pub with_file-IsTable :
        (device : ℕ) (path : FilePath) (handle : Option H) (activity : Option ℕ)
        → IsBelow drives path
        → IsTable (record b {
          file_map = insert ℕ_discrete file handle b.file_map;
          file_path_map = insert ℕ_discrete file path b.file_path_map;
          file_device_map = insert ℕ_discrete file device b.file_device_map;
          script_activity = activity;
        })
    with_file-IsTable device path handle activity h = record {
      same_drives = t.same_drives;
      below = path-below path h;
      same_files = λ f.
          let x = has-insert ℕ_discrete f file handle b.file_map in
          let y = has-insert ℕ_discrete f file path b.file_path_map in
          let z = t.same_files f in ground (arith, x, y, z);
      same_devices = λ f.
          let x = has-insert ℕ_discrete f file device b.file_device_map in
          let y = has-insert ℕ_discrete f file path b.file_path_map in
          let z = t.same_devices f in ground (arith, x, y, z);
      listed_open = λ f e.
          let y = has-insert ℕ_discrete f file path b.file_path_map in
          let z = t.listed_open f e in ground (arith, y, z);
      marked_open = λ f e.
          let y = has-insert ℕ_discrete f file path b.file_path_map in
          let z = t.marked_open f e in ground (arith, y, z);
    }

    pub close-IsTable : IsTable (record b {
      delete_on_close = erase ℕ_discrete file b.delete_on_close;
      file_map = erase ℕ_discrete file b.file_map;
      file_path_map = erase ℕ_discrete file b.file_path_map;
      file_device_map = erase ℕ_discrete file b.file_device_map;
      file_dir_map = erase ℕ_discrete file b.file_dir_map;
    })
    close-IsTable = record {
      same_drives = t.same_drives;
      below = λ f p e.
          let x = lookup-erase ℕ_discrete f file b.file_path_map in
          t.below f p (ground (arith, x, e));
      same_files = λ f.
          let x = has-erase ℕ_discrete f file b.file_map in
          let y = has-erase ℕ_discrete f file b.file_path_map in
          let z = t.same_files f in ground (arith, x, y, z);
      same_devices = λ f.
          let x = has-erase ℕ_discrete f file b.file_device_map in
          let y = has-erase ℕ_discrete f file b.file_path_map in
          let z = t.same_devices f in ground (arith, x, y, z);
      listed_open = λ f e.
          let x = has-erase ℕ_discrete f file b.file_dir_map in
          let y = has-erase ℕ_discrete f file b.file_path_map in
          let z = t.listed_open f in ground (arith, x, y, z, e);
      marked_open = λ f e.
          let x = has-erase ℕ_discrete f file b.delete_on_close in
          let y = has-erase ℕ_discrete f file b.file_path_map in
          let z = t.marked_open f in ground (arith, x, y, z, e);
    }

    -- The other maps' entries of a file that is open.
    module _ (is_open : is_some (lookup ℕ_discrete file b.file_path_map) ≡ true) where
      already :
          (f : ℕ) (d : Dec (file ≡ f))
          → ite d true (is_some (lookup ℕ_discrete f b.file_path_map))
            ≡ is_some (lookup ℕ_discrete f b.file_path_map)
      already f (yes x) =
          sym (ap (λ g. is_some (lookup ℕ_discrete g b.file_path_map)) (sym x) ∙ is_open)
      already f (no x) = refl

      has-insert-open :
          (f : ℕ) (path : FilePath)
          → is_some (lookup ℕ_discrete f (insert ℕ_discrete file path b.file_path_map))
            ≡ is_some (lookup ℕ_discrete f b.file_path_map)
      has-insert-open f path =
          has-insert ℕ_discrete f file path b.file_path_map ∙ already f (ℕ_discrete file f)

      open-or :
          (f : ℕ) (d : Dec (file ≡ f)) (x : Bool)
          → (x ≡ true → is_some (lookup ℕ_discrete f b.file_path_map) ≡ true)
          → ite d true x ≡ true
          → is_some (lookup ℕ_discrete f b.file_path_map) ≡ true
      open-or f (yes y) x h e =
          ap (λ g. is_some (lookup ℕ_discrete g b.file_path_map)) (sym y) ∙ is_open
      open-or f (no y) x h e = h e

      pub rename-IsTable :
          (path : FilePath)
          → IsBelow drives path
          → IsTable (record b { file_path_map = insert ℕ_discrete file path b.file_path_map })
      rename-IsTable path h = record {
        same_drives = t.same_drives;
        below = path-below path h;
        same_files =
            λ f. let y = has-insert-open f path in let z = t.same_files f in ground (arith, y, z);
        same_devices =
            λ f. let y = has-insert-open f path in let z = t.same_devices f in ground (arith, y, z);
        listed_open = λ f e.
            let y = has-insert-open f path in let z = t.listed_open f e in ground (arith, y, z);
        marked_open = λ f e.
            let y = has-insert-open f path in let z = t.marked_open f e in ground (arith, y, z);
      }

      pub list-IsTable :
          (i : I) → IsTable (record b { file_dir_map = insert ℕ_discrete file i b.file_dir_map })
      list-IsTable i = record {
        same_drives = t.same_drives;
        below = t.below;
        same_files = t.same_files;
        same_devices = t.same_devices;
        listed_open = λ f e.
            open-or f (ℕ_discrete file f) (is_some (lookup ℕ_discrete f b.file_dir_map))
              (t.listed_open f) (sym (has-insert ℕ_discrete f file i b.file_dir_map) ∙ e);
        marked_open = t.marked_open;
      }

      pub mark-IsTable :
          (m : Bool)
          → IsTable (record b {
            delete_on_close =
                if m
                then insert ℕ_discrete file true b.delete_on_close
                else erase ℕ_discrete file b.delete_on_close;
          })
      mark-IsTable true = record {
        same_drives = t.same_drives;
        below = t.below;
        same_files = t.same_files;
        same_devices = t.same_devices;
        listed_open = t.listed_open;
        marked_open = λ f e.
            open-or f (ℕ_discrete file f) (is_some (lookup ℕ_discrete f b.delete_on_close))
              (t.marked_open f) (sym (has-insert ℕ_discrete f file true b.delete_on_close) ∙ e);
      }
      mark-IsTable false = record {
        same_drives = t.same_drives;
        below = t.below;
        same_files = t.same_files;
        same_devices = t.same_devices;
        listed_open = t.listed_open;
        marked_open = λ f e.
            let x = has-erase ℕ_discrete f file b.delete_on_close in
            let z = t.marked_open f in ground (arith, x, z, e);
      }
