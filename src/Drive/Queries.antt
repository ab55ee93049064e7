-- ===== src/Drive/Queries.antt =====
-- rdpdr/query_ops.rs and helpers.rs, and the dispatch of rdpdr/mod.rs.
use agent_rdp.Base.Int.{ℤ, pos, negsuc, sub_ℕ}
use agent_rdp.Drive.{
  FilePath, Meta, FileSystem, Backend, DeviceIoRequest, InfoClass, basic, standard, attribute_tag,
  both_directory, VolumeClass, full_size, attribute, volume, other_volume, IoRequest, device_write,
  create_drive_request, device_read, device_close, notify_change_directory, device_control,
  lock_control, query_directory_request, query_information_request, query_volume_request,
  set_information_request, success, unsuccessful, no_such_file, no_more_files, not_supported,
  FileAttributes, FileInfo, basic_info, standard_info, tag_info, both_directory_info,
  full_size_info, attribute_info, volume_info, size_info, controlled, information,
  volume_information, directory_entry, Response, answer,
}
use agent_rdp.Drive.Files.{
  last_name, handle_of, Handled, safe_join, write_device, read_device, close_device, create_drive,
  set_information,
}
use agent_rdp.Base.{
  ℕ, ◌+◌, ◌*◌, ◌/◌, Bool, true, false, not, ◌&&◌, Option, none, some, [], ◌∷◌, ℕ_discrete, ltb, leb,
  ◌==◌, if◌then◌else◌, length, Text, lookup, insert,
}

abbrev starts_with_dot : Text → Bool
starts_with_dot [] = false
starts_with_dot (c ∷ s) = c == 46

abbrev starts_with_dots : Text → Bool
starts_with_dots [] = false
starts_with_dots (c ∷ s) = c == 46 && starts_with_dot s

-- A name's length is counted in bytes, but a name of one character that begins with a dot is a dot.
unfoldable pub get_file_attributes : Meta → Text → FileAttributes
get_file_attributes m name = record {
  directory = m.is_dir;
  archive = not m.is_dir;
  hidden = ltb 1 (length name) && starts_with_dot name && not (starts_with_dots name);
  readonly = not m.has_write_bit;
}

-- Hundreds of nanoseconds since 1601.
unfoldable pub unix_to_filetime : ℤ → ℤ
unix_to_filetime (pos n) = pos (n * 10000000 + 116444736000000000)
unix_to_filetime (negsuc n) = sub_ℕ 116444736000000000 ((n + 1) * 10000000)

abbrev i64_max : ℕ
i64_max = 0x7fffffffffffffff

-- `i64::try_from(..).unwrap_or(..)`.
abbrev i64_or : ℕ → ℕ → ℕ
i64_or d n = if leb n i64_max then n else d

abbrev or_parent : FilePath → Option FilePath → FilePath
or_parent p none = p
or_parent p (some q) = q

abbrev pub ends_with_star : Text → Bool
ends_with_star [] = false
ends_with_star (c ∷ []) = c == 42
ends_with_star (c ∷ d ∷ s) = ends_with_star (d ∷ s)

abbrev pub but_last : Text → Text
but_last [] = []
but_last (c ∷ []) = []
but_last (c ∷ d ∷ s) = c ∷ but_last (d ∷ s)

module _ {S H I : Type 0} (fs : FileSystem S H I) where
  abbrev pub metadata_of : S → FilePath → Option H → Option Meta
  metadata_of s path none = fs.metadata s path
  metadata_of s path (some h) = fs.file_metadata s h

  abbrev basic_of : Meta → Text → FileInfo
  basic_of m name =
      basic_info (unix_to_filetime m.ctime) (unix_to_filetime m.atime) (unix_to_filetime m.mtime)
        (unix_to_filetime m.mtime) (get_file_attributes m name)

  abbrev standard_of : Meta → FileInfo
  standard_of m = standard_info (i64_or 0 m.size) (i64_or 0 m.size) m.is_dir

  abbrev informed : DeviceIoRequest → InfoClass → Text → Meta → Response
  informed q basic name m = answer q success (information (some (basic_of m name)))
  informed q standard name m = answer q success (information (some (standard_of m)))
  informed q attribute_tag name m =
      answer q success (information (some (tag_info (get_file_attributes m name))))
  informed q class name m = answer q unsuccessful (information none)

  abbrev pub informed_by : DeviceIoRequest → InfoClass → Text → Option Meta → Response
  informed_by q class name none = answer q unsuccessful (information none)
  informed_by q class name (some m) = informed q class name m

  abbrev pub information_on :
      Backend H I → S → DeviceIoRequest → InfoClass → Option FilePath → Response
  information_on b s q class none = answer q no_such_file (information none)
  information_on b s q class (some path) =
      informed_by q class (last_name path)
        (metadata_of s path (handle_of (lookup ℕ_discrete q.file_id b.file_map)))

  unfoldable pub query_information : Backend H I → S → DeviceIoRequest → InfoClass → Handled fs
  unfolding get_file_attributes unix_to_filetime
  query_information b s q class =
      (b, s, information_on b s q class (lookup ℕ_discrete q.file_id b.file_path_map) ∷ [])

  -- `get_base_path_for_file`.
  abbrev base_of_device : Backend H I → Option ℕ → Option FilePath
  base_of_device b none = none
  base_of_device b (some device) = lookup ℕ_discrete device b.drive_paths

  abbrev space_or_default : Option (ℕ × ℕ) → ℕ × ℕ
  space_or_default none = (100 * 1024 * 1024 * 1024, 50 * 1024 * 1024 * 1024)
  space_or_default (some r) = r

  abbrev created_at : Option Meta → ℤ
  created_at none = pos 0
  created_at (some m) = unix_to_filetime m.ctime

  -- Allocation units are of 4096 bytes.
  abbrev units : ℕ → ℕ
  units bytes = i64_or i64_max (bytes / 4096)

  abbrev pub volume_answer : DeviceIoRequest → VolumeClass → ℕ × ℕ → ℤ → Response
  volume_answer q full_size space t =
      answer q success (volume_information (some (full_size_info (units space.0) (units space.1))))
  volume_answer q attribute space t = answer q success (volume_information (some attribute_info))
  volume_answer q volume space t = answer q success (volume_information (some (volume_info t)))
  volume_answer q VolumeClass.size space t =
      answer q success (volume_information (some (size_info (units space.0) (units space.1))))
  volume_answer q other_volume space t = answer q unsuccessful (volume_information none)

  -- An unknown file gets the answer of a query for information.
  abbrev pub volume_on :
      Backend H I → S → DeviceIoRequest → VolumeClass → Option FilePath → Response
  volume_on b s q class none = answer q no_such_file (information none)
  volume_on b s q class (some path) =
      volume_answer q class
        (space_or_default (
          fs.disk_space s
            (or_parent path (base_of_device b (lookup ℕ_discrete q.file_id b.file_device_map)))))
        (created_at (metadata_of s path (handle_of (lookup ℕ_discrete q.file_id b.file_map))))

  unfoldable pub query_volume_information :
      Backend H I → S → DeviceIoRequest → VolumeClass → Handled fs
  unfolding unix_to_filetime
  query_volume_information b s q class =
      (b, s, volume_on b s q class (lookup ℕ_discrete q.file_id b.file_path_map) ∷ [])

  abbrev both_directory_of : Meta → Text → FileInfo
  both_directory_of m name =
      both_directory_info (unix_to_filetime m.ctime) (unix_to_filetime m.mtime)
        (unix_to_filetime m.atime) (unix_to_filetime m.mtime) (i64_or 0 m.size)
        (get_file_attributes m name) name

  abbrev entry_answer : DeviceIoRequest → InfoClass → Text → Meta → Response
  entry_answer q both_directory name m =
      answer q success (directory_entry (some (both_directory_of m name)))
  entry_answer q class name m = answer q not_supported (directory_entry none)

  abbrev no_entry : DeviceIoRequest → Bool → Response
  no_entry q initial =
      answer q (if initial then no_such_file else no_more_files) (directory_entry none)

  abbrev pub entry_by : DeviceIoRequest → InfoClass → Bool → Text → Option Meta → Response
  entry_by q class initial name none = no_entry q initial
  entry_by q class initial name (some m) = entry_answer q class name m

  unfoldable pub make_query_dir_resp :
      S → DeviceIoRequest → InfoClass → Bool → Option FilePath → Response
  unfolding get_file_attributes unix_to_filetime
  make_query_dir_resp s q class initial none = no_entry q initial
  make_query_dir_resp s q class initial (some path) =
      entry_by q class initial (last_name path) (fs.metadata s path)

  -- A listing has no `.` and no `..`, so the first entry of `read_dir` is the one that is sought.
  abbrev pub entry_of : Option (Option FilePath) → Option FilePath
  entry_of (some (some path)) = some path
  entry_of e = none

  abbrev pub listed : Backend H I → DeviceIoRequest → InfoClass → S × Option I → Handled fs
  listed b q class (s, none) = (b, s, make_query_dir_resp s q class true none ∷ [])
  listed b q class (s, some i) =
      let e = fs.next s i in
      (
        record b { file_dir_map = insert ℕ_discrete q.file_id e.1 b.file_dir_map },
        e.0,
        make_query_dir_resp e.0 q class true (entry_of e.2) ∷ [],
      )

  abbrev pub list_joined :
      Backend H I → S → DeviceIoRequest → InfoClass → Option FilePath → Handled fs
  list_joined b s q class none = (b, s, make_query_dir_resp s q class true none ∷ [])
  list_joined b s q class (some dir) = listed b q class (fs.read_dir s dir)

  abbrev pub continued : Backend H I → S → DeviceIoRequest → InfoClass → Option I → Handled fs
  continued b s q class none = (b, s, make_query_dir_resp s q class false none ∷ [])
  continued b s q class (some i) =
      let e = fs.next s i in
      (
        record b { file_dir_map = insert ℕ_discrete q.file_id e.1 b.file_dir_map },
        e.0,
        make_query_dir_resp e.0 q class false (entry_of e.2) ∷ [],
      )

  abbrev pub directory_on :
      Backend H I
      → S
      → DeviceIoRequest
      → (initial : Bool) → Text
      → InfoClass
      → Option FilePath
      → Handled fs
  directory_on b s q initial path class none =
      (b, s, answer q no_such_file (directory_entry none) ∷ [])
  directory_on b s q initial path class (some base) =
      if not initial
      then continued b s q class (lookup ℕ_discrete q.file_id b.file_dir_map)
      else if ends_with_star path
      then list_joined b s q class (safe_join fs s base (but_last path))
      else (b, s, make_query_dir_resp s q class true (safe_join fs s base path) ∷ [])

  abbrev pub directory_of :
      Backend H I
      → S
      → DeviceIoRequest
      → (initial : Bool) → Text
      → InfoClass
      → Option FilePath
      → Handled fs
  directory_of b s q initial path class none =
      (b, s, answer q no_such_file (directory_entry none) ∷ [])
  directory_of b s q initial path class (some parent) =
      directory_on b s q initial path class (lookup ℕ_discrete q.device_id b.drive_paths)

  unfoldable pub query_directory :
      Backend H I → S → DeviceIoRequest → (initial : Bool) → Text → InfoClass → Handled fs
  unfolding make_query_dir_resp safe_join
  query_directory b s q initial path class =
      directory_of b s q initial path class (lookup ℕ_discrete q.file_id b.file_path_map)

  -- Changes and locks are not answered.
  unfoldable pub handle_drive_io_request :
      Backend H I → S → DeviceIoRequest → IoRequest → Handled fs
  unfolding write_device create_drive read_device close_device query_directory query_information
      query_volume_information set_information
  handle_drive_io_request b s q (device_write offset bytes) = write_device fs b s q offset bytes
  handle_drive_io_request b s q (create_drive_request r) = create_drive fs b s q r
  handle_drive_io_request b s q (device_read len offset) = read_device fs b s q len offset
  handle_drive_io_request b s q device_close = close_device fs b s q
  handle_drive_io_request b s q notify_change_directory = (b, s, [])
  handle_drive_io_request b s q (query_directory_request initial path class) =
      query_directory b s q initial path class
  handle_drive_io_request b s q (query_information_request class) = query_information b s q class
  handle_drive_io_request b s q (query_volume_request class) = query_volume_information b s q class
  handle_drive_io_request b s q (set_information_request buffer) = set_information fs b s q buffer
  handle_drive_io_request b s q device_control = (b, s, answer q success controlled ∷ [])
  handle_drive_io_request b s q lock_control = (b, s, [])
