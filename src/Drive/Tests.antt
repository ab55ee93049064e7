-- ===== src/Drive/Tests.antt =====
-- The theorems on drives at a concrete file system, and paths that are refused or not.
use agent_rdp.Drive.{
  FilePath, FileSystem, Backend, new_backend, add_drive, DeviceIoRequest, file_create,
  CreateRequest, basic, rename, allocation, disposition, IoRequest, device_write,
  create_drive_request, device_close, set_information_request, no_such_file, written, data_read,
  set_done, information, answer, components_from, components, resolve,
}
use agent_rdp.Drive.Files.{
  insert_file, open_options, is_within, safe_join, write_inner, write_device, read_device,
  close_device, create_drive, set_information,
}
use agent_rdp.Drive.Queries.{query_information, handle_drive_io_request}
use agent_rdp.Drive.Paths.{is_name, stays_below, safe_join_lem}
use agent_rdp.Drive.Table.{IsBelow, IsTable}
use agent_rdp.Drive.Confinement.{IsKeptBelow}
use agent_rdp.Drive.Requests.{IsServed, request-IsServed}
use agent_rdp.Drive.Runs.{mapped, serve_all, requests_stay_inside, closed_is_gone, IsForgotten}
use agent_rdp.Base.{
  ℕ, ◌≡◌, refl, ◌⊎◌, true, false, none, some, List, [], ◌∷◌, arith, ℕ_discrete, if◌then◌else◌,
  length, all, All, Text, codes, text_eq, is_some, lookup, erase, insert,
}

-- A file system that keeps the paths it was given; nothing exists at first.
abbrev toy : FileSystem (List FilePath) ℕ ℕ
toy = record {
  canonicalize = λ s p. none;
  metadata = λ s p. none;
  file_metadata = λ s h. none;
  create_dir_all = λ s p. (p ∷ s, true);
  open_file = λ s p o. (p ∷ s, some 0);
  seek = λ s h n. (s, true);
  write = λ s h c. (s, some (length c));
  flush = λ s h. (s, true);
  read = λ s h n. (s, some []);
  sync_all = λ s h. (s, true);
  set_len = λ s h n. (s, true);
  rename = λ s p q. (p ∷ q ∷ s, true);
  remove_file = λ s p. (p ∷ s, true);
  remove_dir = λ s p. (p ∷ s, true);
  read_dir = λ s p. (p ∷ s, some 0);
  next = λ s i. (s, i, none);
  disk_space = λ s p. none;
  now_ms = λ s. 0;
}

abbrev share : List (ℕ × FilePath)
share = (1, codes "srv" ∷ []) ∷ []

abbrev on_file : ℕ → DeviceIoRequest
on_file f = record { device_id = 1; file_id = f; completion_id = 0 }

abbrev make_file : CreateRequest
make_file = record {
  path = codes "\\docs\\..\\a.ps1";
  disposition = file_create;
  directory_file = false;
  non_directory_file = true;
}

abbrev session : List (DeviceIoRequest × IoRequest)
session =
    (on_file 0, create_drive_request make_file)
    ∷ (on_file 0, device_write 0 (1 ∷ 2 ∷ []))
    ∷ (on_file 0, set_information_request (rename (codes "b")))
    ∷ (on_file 0, set_information_request (disposition true))
    ∷ (on_file 0, device_close)
    ∷ []

session-touches :
    (serve_all toy (mapped share new_backend) [] session).1
    ≡ (codes "srv" ∷ codes "b" ∷ [])
      ∷ (codes "srv" ∷ codes "a.ps1" ∷ [])
      ∷ (codes "srv" ∷ codes "b" ∷ [])
      ∷ (codes "srv" ∷ codes "a.ps1" ∷ [])
      ∷ []
unfolding serve_all mapped add_drive handle_drive_io_request create_drive write_device write_inner
    set_information close_device safe_join components components_from resolve insert_file
    open_options lookup insert erase text_eq ℕ_discrete
session-touches = refl

toy-IsKeptBelow : (drives : List (ℕ × FilePath)) → IsKeptBelow toy drives (All (IsBelow drives))
toy-IsKeptBelow drives = record {
  by_create_dir_all = λ s p b x. (b, x);
  by_open_file = λ s p o b x. (b, x);
  by_rename = λ s p q b c x. (b, (c, x));
  by_remove_file = λ s p b x. (b, x);
  by_remove_dir = λ s p b x. (b, x);
  by_read_dir = λ s p b x. (b, x);
  by_next = λ s i x. x;
  by_seek = λ s h n x. x;
  by_write = λ s h c x. x;
  by_flush = λ s h x. x;
  by_read = λ s h n x. x;
  by_sync_all = λ s h x. x;
  by_set_len = λ s h n x. x;
}

abbrev drives : List (ℕ × FilePath)
drives = Backend.drive_paths {H = ℕ} {I = ℕ} (mapped share new_backend)

requests_stay_inside_example :
    IsTable drives (serve_all toy (mapped share new_backend) [] session).0
    × All (IsBelow drives) (serve_all toy (mapped share new_backend) [] session).1
requests_stay_inside_example =
    requests_stay_inside toy share (All (IsBelow drives)) (toy-IsKeptBelow drives) session [] tt

abbrev empty : Backend ℕ ℕ
empty = new_backend

empty-IsTable : IsTable [] empty
unfolding lookup
empty-IsTable = record {
  same_drives = refl;
  below = λ f p e. ground (arith, e);
  same_files = λ f. refl;
  same_devices = λ f. refl;
  listed_open = λ f e. ground (arith, e);
  marked_open = λ f e. ground (arith, e);
}

request-IsServed_example :
    IsServed toy []
      (All (IsBelow []))
      (toy-IsKeptBelow [])
      (on_file 0)
      empty
      []
      (create_drive_request make_file)
request-IsServed_example =
    request-IsServed toy [] (All (IsBelow [])) (toy-IsKeptBelow []) (on_file 0) empty []
      (create_drive_request make_file) empty-IsTable tt

-- A drive with one file open.
abbrev opened : Backend ℕ ℕ
opened =
    (handle_drive_io_request toy (mapped share new_backend) [] (on_file 0)
      (create_drive_request make_file)).0

was_open : is_some (lookup ℕ_discrete 0 opened.file_path_map) ≡ true
unfolding mapped add_drive handle_drive_io_request create_drive safe_join components components_from
    resolve insert_file open_options lookup insert erase text_eq ℕ_discrete
was_open = refl

closed_is_gone_example :
    IsForgotten (on_file 0).file_id opened (close_device toy opened [] (on_file 0)).0
    × (write_device toy (close_device toy opened [] (on_file 0)).0 [] (on_file 0) 0 (1 ∷ []) ≡ (
      (close_device toy opened [] (on_file 0)).0,
      [],
      answer (on_file 0) no_such_file (written 0) ∷ [],
    ))
    × (read_device toy (close_device toy opened [] (on_file 0)).0 [] (on_file 0) 4 0 ≡ (
      (close_device toy opened [] (on_file 0)).0,
      [],
      answer (on_file 0) no_such_file (data_read []) ∷ [],
    ))
    × (set_information toy (close_device toy opened [] (on_file 0)).0 [] (on_file 0) allocation ≡ (
      (close_device toy opened [] (on_file 0)).0,
      [],
      answer (on_file 0) no_such_file set_done ∷ [],
    ))
    × (query_information toy (close_device toy opened [] (on_file 0)).0 [] (on_file 0) basic ≡ (
      (close_device toy opened [] (on_file 0)).0,
      [],
      answer (on_file 0) no_such_file (information none) ∷ [],
    ))
closed_is_gone_example = closed_is_gone toy opened [] (on_file 0) 0 4 (1 ∷ []) allocation basic

abbrev evil : Text
evil = codes "\\docs\\..\\..\\outside.txt"

safe_join_lem_example :
    ((stays_below 0 (components evil) ≡ false) × (safe_join toy [] (codes "srv" ∷ []) evil ≡ none))
    ⊎ ((stays_below 0 (components evil) ≡ true)
        × ((relative : FilePath) × (all is_name relative ≡ true)
            × (safe_join toy [] (codes "srv" ∷ []) evil
                ≡ (if is_within toy none none then some (codes "srv" ∷ relative) else none))))
safe_join_lem_example = safe_join_lem toy [] (codes "srv" ∷ []) evil

evil-refused : safe_join toy [] (codes "srv" ∷ []) evil ≡ none
unfolding safe_join components components_from resolve text_eq
evil-refused = refl
