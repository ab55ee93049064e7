-- ===== src/Drive/Orderly.antt =====
-- rdpdr: creating, renaming and listing in order, and so every request.
use agent_rdp.Drive.{
  FilePath, Meta, FileSystem, Backend, DeviceIoRequest, CreateRequest, SetBuffer, rename,
  allocation, disposition, end_of_file, other_buffer, IoRequest, notify_change_directory,
  lock_control,
}
use agent_rdp.Drive.Files.{
  insert_directory, noted, insert_file, handle_of, open_options, is_create, is_open_if, Handled,
  safe_join, directory_opened, opened_as, create_at, create_joined, create_on, renamed,
  rename_joined, rename_on, truncate_to, set_on,
}
use agent_rdp.Drive.Paths.{IsConfined, safe_join-IsConfined}
use agent_rdp.Drive.Table.{IsBelow, IsTable, with_file-IsTable, rename-IsTable, mark-IsTable}
use agent_rdp.Drive.Confinement.{IsKeptBelow, IsAnswer, IsOrderly, same}
use agent_rdp.Base.{
  ℕ, ◌≡◌, refl, sym, ap, Bool, true, false, not, ◌||◌, Option, none, some, List, ℕ_discrete,
  if_either, is_some, Text, lookup,
}

-- Changes and locks alone are not answered.
unfoldable pub is_answered : IoRequest → Bool
is_answered notify_change_directory = false
is_answered lock_control = false
is_answered r = true

module _ {S H I : Type 0} (fs : FileSystem S H I) (drives : List (ℕ × FilePath)) (P : S → Type 0)
    (k : IsKeptBelow fs drives P) (q : DeviceIoRequest) where
  abbrev Orderly : Handled fs → Type 0
  Orderly o = IsOrderly fs drives P q o

  pub confined-below :
      (s : S) (device : ℕ) (base path : FilePath)
      → lookup ℕ_discrete device drives ≡ some base
      → IsConfined fs s base path
      → IsBelow drives path
  unfolding IsBelow IsConfined
  confined-below s device base path e (relative, x, y, z) = (device, base, relative, e, x, y)

  module _ (b : Backend H I) (t : IsTable drives b) where
    opened_as-Orderly :
        (file : ℕ) (r : CreateRequest) (path : FilePath) (o : S × Option H)
        → IsBelow drives path
        → P o.0
        → Orderly (opened_as fs b q file r path o)
    unfolding insert_file IsAnswer
    opened_as-Orderly file r path (s, none) below x = same fs drives P k b t q s x _ _
    opened_as-Orderly file r path (s, some h) below x = record {
      table =
          with_file-IsTable drives b t file q.device_id path (some h)
            (noted b.script_activity path (fs.now_ms s)) below;
      kept = x;
      answered = (_, refl, refl);
    }

    directory_opened-Orderly :
        (s : S) (file : ℕ) (r : CreateRequest) (path : FilePath)
        → IsBelow drives path
        → P s
        → Orderly (directory_opened fs b s q file r path)
    unfolding insert_directory IsAnswer
    directory_opened-Orderly s file r path below x = record {
      table = with_file-IsTable drives b t file q.device_id path none b.script_activity below;
      kept = x;
      answered = (_, refl, refl);
    }

    create_at-Orderly :
        (s : S) (file : ℕ) (r : CreateRequest) (path : FilePath) (m : Option Meta)
        → IsBelow drives path
        → P s
        → Orderly (create_at fs b s q file r path m)
    create_at-Orderly s file r path (some m) below x =
        let opens =
          opened_as-Orderly file r path (fs.open_file s path (open_options r.disposition)) below
            (k.by_open_file s path (open_options r.disposition) below x) in
        if_either Orderly m.is_dir
          (if_either Orderly (is_create r.disposition || r.non_directory_file)
            (same fs drives P k b t q s x _ _) (directory_opened-Orderly s file r path below x))
          (if_either Orderly r.directory_file (same fs drives P k b t q s x _ _) opens)
    create_at-Orderly s file r path none below x =
        let made = k.by_create_dir_all s path below x in
        let opens =
          opened_as-Orderly file r path (fs.open_file s path (open_options r.disposition)) below
            (k.by_open_file s path (open_options r.disposition) below x) in
        if_either Orderly (not r.directory_file) opens (
          if_either Orderly (not (is_create r.disposition || is_open_if r.disposition))
            (same fs drives P k b t q s x _ _)
            (if_either Orderly (fs.create_dir_all s path).1
              (directory_opened-Orderly (fs.create_dir_all s path).0 file r path below made)
              (same fs drives P k b t q (fs.create_dir_all s path).0 made _ _)))

    create_joined-Orderly :
        (s : S) (file : ℕ) (r : CreateRequest) (o : Option FilePath)
        → ((path : FilePath) → o ≡ some path → IsBelow drives path)
        → P s
        → Orderly (create_joined fs b s q file r o)
    create_joined-Orderly s file r none h x = same fs drives P k b t q s x _ _
    create_joined-Orderly s file r (some path) h x =
        create_at-Orderly s file r path (fs.metadata s path) (h path refl) x

    pub create_on-Orderly :
        (s : S) (file : ℕ) (r : CreateRequest) (o : Option FilePath)
        → lookup ℕ_discrete q.device_id drives ≡ o
        → P s
        → Orderly (create_on fs b s q file r o)
    create_on-Orderly s file r none e x = same fs drives P k b t q s x _ _
    create_on-Orderly s file r (some base) e x =
        create_joined-Orderly s file r (safe_join fs s base r.path)
          (λ path h.
            confined-below s q.device_id base path e (safe_join-IsConfined fs s base r.path path h))
          x

    renamed-Orderly :
        (to : FilePath) (o : S × Bool)
        → is_some (lookup ℕ_discrete q.file_id b.file_path_map) ≡ true
        → IsBelow drives to
        → P o.0
        → Orderly (renamed fs b q to o)
    unfolding IsAnswer
    renamed-Orderly to (s, false) e below x = same fs drives P k b t q s x _ _
    renamed-Orderly to (s, true) e below x = record {
      table = rename-IsTable drives b t q.file_id e to below;
      kept = x;
      answered = (_, refl, refl);
    }

    rename_joined-Orderly :
        (s : S) (from : FilePath) (o : Option FilePath)
        → is_some (lookup ℕ_discrete q.file_id b.file_path_map) ≡ true
        → IsBelow drives from
        → ((path : FilePath) → o ≡ some path → IsBelow drives path)
        → P s
        → Orderly (rename_joined fs b s q from o)
    rename_joined-Orderly s from none e below h x = same fs drives P k b t q s x _ _
    rename_joined-Orderly s from (some to) e below h x =
        renamed-Orderly to (fs.rename s from to) e (h to refl)
          (k.by_rename s from to below (h to refl) x)

    rename_on-Orderly :
        (s : S) (from : FilePath) (file_name : Text) (o : Option FilePath)
        → lookup ℕ_discrete q.device_id drives ≡ o
        → is_some (lookup ℕ_discrete q.file_id b.file_path_map) ≡ true
        → IsBelow drives from
        → P s
        → Orderly (rename_on fs b s q from file_name o)
    rename_on-Orderly s from file_name none d e below x = same fs drives P k b t q s x _ _
    rename_on-Orderly s from file_name (some base) d e below x =
        rename_joined-Orderly s from (safe_join fs s base file_name) e below
          (λ path h.
            confined-below s q.device_id base path d
              (safe_join-IsConfined fs s base file_name path h))
          x

    truncate_to-Orderly : (s : S) (n : ℕ) (o : Option H) → P s → Orderly (truncate_to fs b s q n o)
    truncate_to-Orderly s n none x = same fs drives P k b t q s x _ _
    truncate_to-Orderly s n (some h) x =
        same fs drives P k b t q (fs.set_len s h n).0 (k.by_set_len s h n x) _ _

    pub set_on-Orderly :
        (s : S) (buffer : SetBuffer) (o : Option FilePath)
        → lookup ℕ_discrete q.file_id b.file_path_map ≡ o
        → P s
        → Orderly (set_on fs b s q buffer o)
    unfolding IsAnswer
    set_on-Orderly s buffer none e x = same fs drives P k b t q s x _ _
    set_on-Orderly s (rename file_name) (some path) e x =
        rename_on-Orderly s path file_name (lookup ℕ_discrete q.device_id b.drive_paths)
          (ap (lookup ℕ_discrete q.device_id) (sym t.same_drives)) (ap is_some e)
          (t.below q.file_id path e) x
    set_on-Orderly s allocation (some path) e x = same fs drives P k b t q s x _ _
    set_on-Orderly s (disposition m) (some path) e x = record {
      table = mark-IsTable drives b t q.file_id (ap is_some e) m;
      kept = x;
      answered = (_, refl, refl);
    }
    set_on-Orderly s (end_of_file n) (some path) e x =
        truncate_to-Orderly s n (handle_of (lookup ℕ_discrete q.file_id b.file_map)) x
    set_on-Orderly s other_buffer (some path) e x = same fs drives P k b t q s x _ _
