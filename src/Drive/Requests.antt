-- ===== src/Drive/Requests.antt =====
-- rdpdr: queries, and a request of any kind.
use agent_rdp.Drive.{
  FilePath, Meta, FileSystem, Backend, DeviceIoRequest, InfoClass, basic, standard, attribute_tag,
  both_directory, other_class, VolumeClass, full_size, attribute, volume, size, other_volume,
  IoRequest, device_write, create_drive_request, device_read, device_close, notify_change_directory,
  device_control, lock_control, query_directory_request, query_information_request,
  query_volume_request, set_information_request, success, controlled, Response, answer, parent,
}
use agent_rdp.Base.Int.{ℤ}
use agent_rdp.Drive.Files.{
  last_name, next_file_id, handle_of, Handled, safe_join, write_device, read_device, create_drive,
  set_information,
}
use agent_rdp.Drive.Queries.{
  ends_with_star, but_last, metadata_of, informed_by, information_on, query_information,
  volume_answer, volume_on, query_volume_information, entry_by, make_query_dir_resp, entry_of,
  listed, list_joined, continued, directory_on, directory_of, query_directory,
  handle_drive_io_request,
}
use agent_rdp.Drive.Paths.{safe_join-IsConfined}
use agent_rdp.Drive.Table.{IsBelow, IsTable, list-IsTable}
use agent_rdp.Drive.Confinement.{
  IsKeptBelow, IsAnswer, IsOrderly, write_to-IsOrderly, read_from-IsOrderly, close_device-IsOrderly,
}
use agent_rdp.Drive.Orderly.{is_answered, confined-below, create_on-Orderly, set_on-Orderly}
use agent_rdp.Base.{
  ℕ, ◌≡◌, refl, sym, ap, ◌⊎◌, inl, inr, Bool, true, false, not, Option, none, some, List, [], ◌∷◌,
  ℕ_discrete, if_either, is_some, Text, lookup, insert,
}

module _ {S H I : Type 0} (fs : FileSystem S H I) (drives : List (ℕ × FilePath)) (P : S → Type 0)
    (k : IsKeptBelow fs drives P) (q : DeviceIoRequest) where
  abbrev IsFine : Handled fs → Type 0
  IsFine o = IsOrderly fs drives P q o

  informed-header :
      (class : InfoClass) (name : Text) (o : Option Meta)
      → (informed_by fs q class name o).header ≡ q
  informed-header class name none = refl
  informed-header basic name (some m) = refl
  informed-header standard name (some m) = refl
  informed-header attribute_tag name (some m) = refl
  informed-header both_directory name (some m) = refl
  informed-header other_class name (some m) = refl

  volume-header :
      (class : VolumeClass) (space : ℕ × ℕ) (t : ℤ) → (volume_answer fs q class space t).header ≡ q
  volume-header full_size space t = refl
  volume-header attribute space t = refl
  volume-header volume space t = refl
  volume-header size space t = refl
  volume-header other_volume space t = refl

  entry-header :
      (class : InfoClass) (initial : Bool) (name : Text) (o : Option Meta)
      → (entry_by fs q class initial name o).header ≡ q
  entry-header class initial name none = refl
  entry-header basic initial name (some m) = refl
  entry-header standard initial name (some m) = refl
  entry-header attribute_tag initial name (some m) = refl
  entry-header both_directory initial name (some m) = refl
  entry-header other_class initial name (some m) = refl

  resp-header :
      (s : S) (class : InfoClass) (initial : Bool) (o : Option FilePath)
      → (make_query_dir_resp fs s q class initial o).header ≡ q
  unfolding make_query_dir_resp
  resp-header s class initial none = refl
  resp-header s class initial (some path) =
      entry-header class initial (last_name path) (fs.metadata s path)

  module _ (b : Backend H I) (t : IsTable drives b) where
    only_answers : (s : S) (r : Response) → P s → r.header ≡ q → IsFine (b, s, r ∷ [])
    unfolding IsAnswer
    only_answers s r x h = record { table = t; kept = x; answered = (r, refl, h) }

    information_on-header :
        (s : S) (class : InfoClass) (o : Option FilePath)
        → (information_on fs b s q class o).header ≡ q
    information_on-header s class none = refl
    information_on-header s class (some path) =
        informed-header class (last_name path)
          (metadata_of fs s path (handle_of (lookup ℕ_discrete q.file_id b.file_map)))

    volume_on-header :
        (s : S) (class : VolumeClass) (o : Option FilePath)
        → (volume_on fs b s q class o).header ≡ q
    volume_on-header s class none = refl
    volume_on-header s class (some path) = volume-header class _ _

    information-IsFine :
        (s : S) (class : InfoClass) → P s → IsFine (query_information fs b s q class)
    unfolding query_information
    information-IsFine s class x =
        only_answers s _ x
          (information_on-header s class (lookup ℕ_discrete q.file_id b.file_path_map))

    volume-IsFine :
        (s : S) (class : VolumeClass) → P s → IsFine (query_volume_information fs b s q class)
    unfolding query_volume_information
    volume-IsFine s class x =
        only_answers s _ x (volume_on-header s class (lookup ℕ_discrete q.file_id b.file_path_map))

    stepped-IsFine :
        (s : S) (class : InfoClass) (initial : Bool) (i : I)
        → is_some (lookup ℕ_discrete q.file_id b.file_path_map) ≡ true
        → P s
        → IsFine (
          record b { file_dir_map = insert ℕ_discrete q.file_id (fs.next s i).1 b.file_dir_map },
          (fs.next s i).0,
          make_query_dir_resp fs (fs.next s i).0 q class initial (entry_of fs (fs.next s i).2) ∷ [],
        )
    unfolding IsAnswer
    stepped-IsFine s class initial i e x = record {
      table = list-IsTable drives b t q.file_id e (fs.next s i).1;
      kept = k.by_next s i x;
      answered = (_, refl, resp-header (fs.next s i).0 class initial (entry_of fs (fs.next s i).2));
    }

    listed-IsFine :
        (class : InfoClass) (o : S × Option I)
        → is_some (lookup ℕ_discrete q.file_id b.file_path_map) ≡ true
        → P o.0
        → IsFine (listed fs b q class o)
    listed-IsFine class (s, none) e x = only_answers s _ x (resp-header s class true none)
    listed-IsFine class (s, some i) e x = stepped-IsFine s class true i e x

    list_joined-IsFine :
        (s : S) (class : InfoClass) (o : Option FilePath)
        → is_some (lookup ℕ_discrete q.file_id b.file_path_map) ≡ true
        → ((path : FilePath) → o ≡ some path → IsBelow drives path)
        → P s
        → IsFine (list_joined fs b s q class o)
    list_joined-IsFine s class none e h x = only_answers s _ x (resp-header s class true none)
    list_joined-IsFine s class (some dir) e h x =
        listed-IsFine class (fs.read_dir s dir) e (k.by_read_dir s dir (h dir refl) x)

    continued-IsFine :
        (s : S) (class : InfoClass) (o : Option I)
        → is_some (lookup ℕ_discrete q.file_id b.file_path_map) ≡ true
        → P s
        → IsFine (continued fs b s q class o)
    continued-IsFine s class none e x = only_answers s _ x (resp-header s class false none)
    continued-IsFine s class (some i) e x = stepped-IsFine s class false i e x

    directory_on-IsFine :
        (s : S) (initial : Bool) (path : Text) (class : InfoClass) (o : Option FilePath)
        → is_some (lookup ℕ_discrete q.file_id b.file_path_map) ≡ true
        → lookup ℕ_discrete q.device_id drives ≡ o
        → P s
        → IsFine (directory_on fs b s q initial path class o)
    directory_on-IsFine s initial path class none e d x = only_answers s _ x refl
    directory_on-IsFine s initial path class (some base) e d x =
        if_either IsFine (not initial)
          (continued-IsFine s class (lookup ℕ_discrete q.file_id b.file_dir_map) e x)
          (if_either IsFine (ends_with_star path)
            (list_joined-IsFine s class (safe_join fs s base (but_last path)) e
              (λ p h.
                confined-below fs drives P k q s q.device_id base p d
                  (safe_join-IsConfined fs s base (but_last path) p h))
              x)
            (only_answers s _ x (resp-header s class true (safe_join fs s base path))))

    directory_of-IsFine :
        (s : S) (initial : Bool) (path : Text) (class : InfoClass) (o : Option FilePath)
        → lookup ℕ_discrete q.file_id b.file_path_map ≡ o
        → P s
        → IsFine (directory_of fs b s q initial path class o)
    directory_of-IsFine s initial path class none e x = only_answers s _ x refl
    directory_of-IsFine s initial path class (some parent) e x =
        directory_on-IsFine s initial path class (lookup ℕ_discrete q.device_id b.drive_paths)
          (ap is_some e) (ap (lookup ℕ_discrete q.device_id) (sym t.same_drives)) x

  next-IsTable : (b : Backend H I) → IsTable drives b → IsTable drives (next_file_id b)
  next-IsTable b t = record {
    same_drives = t.same_drives;
    below = t.below;
    same_files = t.same_files;
    same_devices = t.same_devices;
    listed_open = t.listed_open;
    marked_open = t.marked_open;
  }

  -- What a request leaves: the table in order, what every call below the drives keeps, and one
  -- answer under the request's own header, or none to a notice or a lock.
  unfoldable pub IsServed : Backend H I → S → IoRequest → Type 0
  IsServed b s r =
      let o = handle_drive_io_request fs b s q r in
      IsTable drives o.0
      × P o.1
      × ((is_answered r ≡ true) × IsAnswer fs drives P q o.2 ⊎ (is_answered r ≡ false) × (o.2 ≡ []))

  fine-IsServed :
      (b : Backend H I) (s : S) (r : IoRequest)
      → is_answered r ≡ true
      → IsFine (handle_drive_io_request fs b s q r)
      → IsServed b s r
  unfolding IsServed
  fine-IsServed b s r e h = (h.table, h.kept, inl (e, h.answered))

  -- Any call of the backend may change the file system, but only below the drives that are mapped:
  -- what every call below them keeps, a request keeps, when the table is in order. The table stays
  -- in order - each open file lies below a drive, its maps have the same files, and only those have
  -- a listing or a mark for deletion - and the request gets one answer under its own header, or
  -- none when it is a notice or a lock.
  pub request-IsServed :
      (b : Backend H I) (s : S) (r : IoRequest) → IsTable drives b → P s → IsServed b s r
  unfolding handle_drive_io_request is_answered IsServed write_device create_drive read_device
      query_directory set_information
  request-IsServed b s (device_write offset bytes) t x =
      fine-IsServed b s (device_write offset bytes) refl (
        write_to-IsOrderly fs drives P k b t q s offset bytes
          (handle_of (lookup ℕ_discrete q.file_id b.file_map)) x)
  request-IsServed b s (create_drive_request r) t x =
      fine-IsServed b s (create_drive_request r) refl (
        create_on-Orderly fs drives P k q (next_file_id b) (next-IsTable b t) s b.file_id r
          (lookup ℕ_discrete q.device_id b.drive_paths)
          (ap (lookup ℕ_discrete q.device_id) (sym t.same_drives)) x)
  request-IsServed b s (device_read len offset) t x =
      fine-IsServed b s (device_read len offset) refl (
        read_from-IsOrderly fs drives P k b t q s len offset
          (handle_of (lookup ℕ_discrete q.file_id b.file_map)) x)
  request-IsServed b s device_close t x =
      fine-IsServed b s device_close refl (close_device-IsOrderly fs drives P k b t q s x)
  request-IsServed b s notify_change_directory t x = (t, x, inr (refl, refl))
  request-IsServed b s device_control t x =
      fine-IsServed b s device_control refl
        (only_answers b t s (answer q success controlled) x refl)
  request-IsServed b s lock_control t x = (t, x, inr (refl, refl))
  request-IsServed b s (query_directory_request initial path class) t x =
      fine-IsServed b s (query_directory_request initial path class) refl (
        directory_of-IsFine b t s initial path class (lookup ℕ_discrete q.file_id b.file_path_map)
          refl x)
  request-IsServed b s (query_information_request class) t x =
      fine-IsServed b s (query_information_request class) refl (information-IsFine b t s class x)
  request-IsServed b s (query_volume_request class) t x =
      fine-IsServed b s (query_volume_request class) refl (volume-IsFine b t s class x)
  request-IsServed b s (set_information_request buffer) t x =
      fine-IsServed b s (set_information_request buffer) refl (
        set_on-Orderly fs drives P k q b t s buffer (lookup ℕ_discrete q.file_id b.file_path_map)
          refl x)
