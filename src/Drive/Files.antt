-- ===== src/Drive/Files.antt =====
-- rdpdr/file_ops.rs, set_ops.rs and helpers.rs: creating, reading, writing, closing, renaming.
use agent_rdp.Drive.{
  FilePath, Bytes, Meta, OpenOptions, FileSystem, Backend, DeviceIoRequest, Disposition,
  file_supersede, file_open, file_create, file_open_if, file_overwrite, file_overwrite_if,
  other_disposition, CreateRequest, SetBuffer, rename, allocation, disposition, end_of_file,
  other_buffer, NtStatus, success, unsuccessful, no_such_file, access_denied, not_a_directory,
  Information, no_information, superseded, opened, overwritten, created, written, data_read, closed,
  set_done, Response, answer, components, resolve, starts_with,
}
use agent_rdp.Base.{
  ℕ, ◌+◌, ◌%◌, ◌^◌, Bool, true, false, not, ◌||◌, Option, none, some, List, [], ◌∷◌, ◌++◌,
  ℕ_discrete, ◌==◌, if◌then◌else◌, is_none, length, Text, codes, text_eq, lower, lookup, erase,
  insert,
}

-- `path.extension()` is `ps1`, in any case: something stands before the last dot.
abbrev has_ps1 : Text → Bool
has_ps1 [] = false
has_ps1 (c ∷ s) = text_eq (lower s) (codes ".ps1") || has_ps1 s

abbrev pub last_name : FilePath → Text
last_name [] = []
last_name (p ∷ []) = p
last_name (p ∷ q ∷ ps) = last_name (q ∷ ps)

-- `file_id` is a `u32`.
abbrev pub next_file_id : {H I : Type 0} → Backend H I → Backend H I
next_file_id b = record b { file_id = (b.file_id + 1) % 2 ^ 32 }

unfoldable pub insert_directory :
    {H I : Type 0} → Backend H I → (file device : ℕ) → FilePath → Backend H I
insert_directory b file device path = record b {
  file_map = insert ℕ_discrete file none b.file_map;
  file_path_map = insert ℕ_discrete file path b.file_path_map;
  file_device_map = insert ℕ_discrete file device b.file_device_map;
}

abbrev pub noted : Option ℕ → FilePath → ℕ → Option ℕ
noted none path now = none
noted (some t) path now = if has_ps1 (last_name path) then some now else some t

unfoldable pub insert_file :
    {H I : Type 0} → Backend H I → (file device : ℕ) → FilePath → H → (now : ℕ) → Backend H I
unfolding lower
insert_file b file device path h now = record b {
  file_map = insert ℕ_discrete file (some h) b.file_map;
  file_path_map = insert ℕ_discrete file path b.file_path_map;
  file_device_map = insert ℕ_discrete file device b.file_device_map;
  script_activity = noted b.script_activity path now;
}

-- The file's handle: `get(..)` is `Some(Some(file))`.
abbrev pub handle_of : {H : Type 0} → Option (Option H) → Option H
handle_of none = none
handle_of (some o) = o

unfoldable pub open_options : Disposition → OpenOptions
open_options file_open_if = record {
  read = true;
  write = true;
  append = false;
  truncate = false;
  create = true;
  create_new = false;
}
open_options file_create = record {
  read = true;
  write = true;
  append = false;
  truncate = false;
  create = false;
  create_new = true;
}
open_options file_supersede = record {
  read = true;
  write = true;
  append = true;
  truncate = false;
  create = true;
  create_new = false;
}
open_options file_open = record {
  read = true;
  write = false;
  append = false;
  truncate = false;
  create = false;
  create_new = false;
}
open_options file_overwrite = record {
  read = true;
  write = true;
  append = false;
  truncate = true;
  create = false;
  create_new = false;
}
open_options file_overwrite_if = record {
  read = true;
  write = true;
  append = false;
  truncate = true;
  create = true;
  create_new = false;
}
open_options other_disposition = record {
  read = false;
  write = false;
  append = false;
  truncate = false;
  create = false;
  create_new = false;
}

abbrev information_of : Disposition → Information
information_of file_open_if = opened
information_of file_overwrite_if = overwritten
information_of other_disposition = no_information
information_of d = superseded

abbrev pub is_create : Disposition → Bool
is_create file_create = true
is_create d = false

abbrev pub is_open_if : Disposition → Bool
is_open_if file_open_if = true
is_open_if d = false

module _ {S H I : Type 0} (fs : FileSystem S H I) where
  -- What a handler gives: the backend, the file system, the answers.
  abbrev pub Handled : Type 0
  Handled = Backend H I × S × List Response

  abbrev pub is_within : Option FilePath → Option FilePath → Bool
  is_within (some real) (some real_base) = starts_with real_base real
  is_within a b = true

  abbrev pub joined : S → FilePath → Option FilePath → Option FilePath
  joined s base none = none
  joined s base (some relative) =
      let path = base ++ relative in
      if is_within (fs.canonicalize s path) (fs.canonicalize s base) then some path else none

  unfoldable pub safe_join : S → FilePath → Text → Option FilePath
  unfolding components resolve
  safe_join s base requested = joined s base (resolve [] (components requested))

  unfoldable pub write_inner : S → H → ℕ → Bytes → S × Option ℕ
  write_inner s h offset bytes =
      let sought = fs.seek s h offset in
      let wrote = fs.write sought.0 h bytes in
      let flushed = fs.flush wrote.0 h in
      if not sought.1
      then (sought.0, none)
      else if is_none wrote.1
      then (wrote.0, none)
      else (flushed.0, if flushed.1 then wrote.1 else none)

  abbrev pub written_as : DeviceIoRequest → ℕ → Option ℕ → Response
  written_as q expected none = answer q unsuccessful (written 0)
  written_as q expected (some n) =
      if n == expected
      then answer q success (written expected)
      else answer q unsuccessful (written 0)

  abbrev pub write_to : Backend H I → S → DeviceIoRequest → ℕ → Bytes → Option H → Handled
  write_to b s q offset bytes none = (b, s, answer q no_such_file (written 0) ∷ [])
  write_to b s q offset bytes (some h) =
      let r = write_inner s h offset bytes in (b, r.0, written_as q (length bytes) r.1 ∷ [])

  unfoldable pub write_device : Backend H I → S → DeviceIoRequest → ℕ → Bytes → Handled
  unfolding write_inner
  write_device b s q offset bytes =
      write_to b s q offset bytes (handle_of (lookup ℕ_discrete q.file_id b.file_map))

  unfoldable pub read_inner : S → H → ℕ → ℕ → S × Option Bytes
  read_inner s h offset len =
      let sought = fs.seek s h offset in
      if sought.1 then fs.read sought.0 h len else (sought.0, none)

  abbrev pub read_as : DeviceIoRequest → Option Bytes → Response
  read_as q none = answer q unsuccessful (data_read [])
  read_as q (some bytes) = answer q success (data_read bytes)

  abbrev pub read_from : Backend H I → S → DeviceIoRequest → ℕ → ℕ → Option H → Handled
  read_from b s q len offset none = (b, s, answer q no_such_file (data_read []) ∷ [])
  read_from b s q len offset (some h) =
      let r = read_inner s h offset len in (b, r.0, read_as q r.1 ∷ [])

  unfoldable pub read_device : Backend H I → S → DeviceIoRequest → (len offset : ℕ) → Handled
  unfolding read_inner
  read_device b s q len offset =
      read_from b s q len offset (handle_of (lookup ℕ_discrete q.file_id b.file_map))

  abbrev pub synced : S → Option H → S
  synced s none = s
  synced s (some h) = (fs.sync_all s h).0

  -- A file, or else an empty directory.
  abbrev pub deleted : S → FilePath → S
  deleted s path =
      let file = fs.remove_file s path in if file.1 then file.0 else (fs.remove_dir file.0 path).0

  abbrev pub delete_marked : S → Option Bool → Option FilePath → S
  delete_marked s (some true) (some path) = deleted s path
  delete_marked s m p = s

  unfoldable pub close_device : Backend H I → S → DeviceIoRequest → Handled
  close_device b s q = (
    record b {
      delete_on_close = erase ℕ_discrete q.file_id b.delete_on_close;
      file_map = erase ℕ_discrete q.file_id b.file_map;
      file_path_map = erase ℕ_discrete q.file_id b.file_path_map;
      file_device_map = erase ℕ_discrete q.file_id b.file_device_map;
      file_dir_map = erase ℕ_discrete q.file_id b.file_dir_map;
    },
    delete_marked (synced s (handle_of (lookup ℕ_discrete q.file_id b.file_map)))
        (lookup ℕ_discrete q.file_id b.delete_on_close)
        (lookup ℕ_discrete q.file_id b.file_path_map),
    answer q success closed ∷ [],
  )

  abbrev not_created : Backend H I → S → DeviceIoRequest → ℕ → NtStatus → Handled
  not_created b s q file status = (b, s, answer q status (created file no_information) ∷ [])

  abbrev pub directory_opened :
      Backend H I → S → DeviceIoRequest → ℕ → CreateRequest → FilePath → Handled
  directory_opened b s q file r path = (
    insert_directory b file q.device_id path,
    s,
    answer q success (created file (information_of r.disposition)) ∷ [],
  )

  abbrev pub opened_as :
      Backend H I → DeviceIoRequest → ℕ → CreateRequest → FilePath → S × Option H → Handled
  opened_as b q file r path (s, none) = not_created b s q file unsuccessful
  opened_as b q file r path (s, some h) = (
    insert_file b file q.device_id path h (fs.now_ms s),
    s,
    answer q success (created file (information_of r.disposition)) ∷ [],
  )

  abbrev open_path : Backend H I → S → DeviceIoRequest → ℕ → CreateRequest → FilePath → Handled
  open_path b s q file r path =
      opened_as b q file r path (fs.open_file s path (open_options r.disposition))

  -- First a directory, by what is there.
  abbrev pub create_at :
      Backend H I → S → DeviceIoRequest → ℕ → CreateRequest → FilePath → Option Meta → Handled
  create_at b s q file r path (some m) =
      if m.is_dir
      then if is_create r.disposition || r.non_directory_file
        then not_created b s q file unsuccessful
        else directory_opened b s q file r path
      else if r.directory_file
      then not_created b s q file not_a_directory
      else open_path b s q file r path
  create_at b s q file r path none =
      let made = fs.create_dir_all s path in
      if not r.directory_file
      then open_path b s q file r path
      else if not (is_create r.disposition || is_open_if r.disposition)
      then not_created b s q file unsuccessful
      else if made.1
      then directory_opened b made.0 q file r path
      else not_created b made.0 q file unsuccessful

  abbrev pub create_joined :
      Backend H I → S → DeviceIoRequest → ℕ → CreateRequest → Option FilePath → Handled
  create_joined b s q file r none = not_created b s q file access_denied
  create_joined b s q file r (some path) = create_at b s q file r path (fs.metadata s path)

  abbrev pub create_on :
      Backend H I → S → DeviceIoRequest → ℕ → CreateRequest → Option FilePath → Handled
  create_on b s q file r none = not_created b s q file unsuccessful
  create_on b s q file r (some base) = create_joined b s q file r (safe_join s base r.path)

  unfoldable pub create_drive : Backend H I → S → DeviceIoRequest → CreateRequest → Handled
  unfolding safe_join insert_directory insert_file open_options
  create_drive b s q r =
      create_on (next_file_id b) s q b.file_id r (lookup ℕ_discrete q.device_id b.drive_paths)

  abbrev set_as : Backend H I → S → DeviceIoRequest → NtStatus → Handled
  set_as b s q status = (b, s, answer q status set_done ∷ [])

  abbrev pub renamed : Backend H I → DeviceIoRequest → FilePath → S × Bool → Handled
  renamed b q to (s, false) = set_as b s q unsuccessful
  renamed b q to (s, true) =
      set_as (record b { file_path_map = insert ℕ_discrete q.file_id to b.file_path_map }) s q
        success

  abbrev pub rename_joined :
      Backend H I → S → DeviceIoRequest → FilePath → Option FilePath → Handled
  rename_joined b s q from none = set_as b s q access_denied
  rename_joined b s q from (some to) = renamed b q to (fs.rename s from to)

  -- The base is the one of the device that the request names.
  abbrev pub rename_on :
      Backend H I → S → DeviceIoRequest → FilePath → Text → Option FilePath → Handled
  rename_on b s q from file_name none = set_as b s q unsuccessful
  rename_on b s q from file_name (some base) = rename_joined b s q from (safe_join s base file_name)

  abbrev truncated : Backend H I → DeviceIoRequest → S × Bool → Handled
  truncated b q (s, done) = set_as b s q (if done then success else unsuccessful)

  abbrev pub truncate_to : Backend H I → S → DeviceIoRequest → ℕ → Option H → Handled
  truncate_to b s q n none = set_as b s q no_such_file
  truncate_to b s q n (some h) = truncated b q (fs.set_len s h n)

  abbrev pub set_on : Backend H I → S → DeviceIoRequest → SetBuffer → Option FilePath → Handled
  set_on b s q buffer none = set_as b s q no_such_file
  set_on b s q (rename file_name) (some path) =
      rename_on b s q path file_name (lookup ℕ_discrete q.device_id b.drive_paths)
  set_on b s q allocation (some path) = set_as b s q success
  set_on b s q (disposition delete_pending) (some path) =
      set_as
        (record b {
          delete_on_close =
              if delete_pending
              then insert ℕ_discrete q.file_id true b.delete_on_close
              else erase ℕ_discrete q.file_id b.delete_on_close;
        })
        s q success
  set_on b s q (end_of_file n) (some path) =
      truncate_to b s q n (handle_of (lookup ℕ_discrete q.file_id b.file_map))
  set_on b s q other_buffer (some path) = set_as b s q success

  unfoldable pub set_information : Backend H I → S → DeviceIoRequest → SetBuffer → Handled
  unfolding safe_join
  set_information b s q buffer = set_on b s q buffer (lookup ℕ_discrete q.file_id b.file_path_map)
