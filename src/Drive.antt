-- ===== src/Drive.antt =====
-- crates/agent-rdp-daemon/src/rdpdr: drives that the remote desktop sees, on Unix. Here are the
-- backend's table of open files, what it is asked and answers, and what it uses of the file
-- system. A path is the list of its components; a file handle, a listing in progress and the state
-- of the file system are types of the file system's own.
pub mod Files
pub mod Queries
pub mod Paths
pub mod Table
pub mod Confinement
pub mod Orderly
pub mod Requests
pub mod Runs
mod Tests
use agent_rdp.Base.Int.{ℤ}
use agent_rdp.Base.{
  ℕ, zero, suc, ◌+◌, ◌-◌, ◌*◌, ◌/◌, ◌%◌, ◌^◌, ◌≤◌, ◌<◌, min, max, ◌≡◌, refl, sym, ap, ◌∙◌, subst,
  ◌≢◌, ◌↔◌, ◌⊎◌, inl, inr, ite, Bool, true, false, not, ◌&&◌, ◌||◌, Option, none, some, List, [],
  ◌∷◌, ◌++◌, map, reverse, arith, dec_lt, dec_le, ℕ_discrete, ltb, leb, ◌==◌, if◌then◌else◌, ==_iff,
  ltb→lt, leb→le, Bool-cases, if_either, if_split, Option-cases, is_some, is_none, some_of, Result,
  Result-cases, ok, err, u32_max, u64_max, sat_add32, sat_add64, length, get_elem?, take, drop,
  length-append, length-drop, length-take, take-length, append_assoc, append-nil, reverse-cons,
  length-reverse, keep, any, all, All, All-append, length-keep-le, Text, codes, text_eq, text_eq→eq,
  text_eq_refl, text_eq_iff, Text-discrete, utf8_width, utf8_len, utf16_units, encode_utf16,
  decimal, lower, lookup, erase, insert, lookup-erase, lookup-insert, contains, discard, add,
  contains-discard, contains-add,
}

abbrev pub FilePath : Type 0
FilePath = List Text

abbrev pub Bytes : Type 0
Bytes = List ℕ

-- `fs::Metadata`; times are in seconds after the epoch.
pub record Meta : Type 0 where
  pub is_dir : Bool
  pub size : ℕ
  pub has_write_bit : Bool
  pub ctime : ℤ
  pub atime : ℤ
  pub mtime : ℤ

pub record OpenOptions : Type 0 where
  pub read : Bool
  pub write : Bool
  pub append : Bool
  pub truncate : Bool
  pub create : Bool
  pub create_new : Bool

-- What the backend uses of `std::fs`; a Boolean is whether the call succeeded. The next entry of a
-- listing is its end, an error or a path.
pub record FileSystem (S H I : Type 0) : Type 0 where
  pub canonicalize : S → FilePath → Option FilePath
  pub metadata : S → FilePath → Option Meta
  pub file_metadata : S → H → Option Meta
  pub create_dir_all : S → FilePath → S × Bool
  pub open_file : S → FilePath → OpenOptions → S × Option H
  pub seek : S → H → ℕ → S × Bool
  pub write : S → H → Bytes → S × Option ℕ
  pub flush : S → H → S × Bool
  pub read : S → H → ℕ → S × Option Bytes
  pub sync_all : S → H → S × Bool
  pub set_len : S → H → ℕ → S × Bool
  pub rename : S → FilePath → FilePath → S × Bool
  pub remove_file : S → FilePath → S × Bool
  pub remove_dir : S → FilePath → S × Bool
  pub read_dir : S → FilePath → S × Option I
  pub next : S → I → S × I × Option (Option FilePath)
  pub disk_space : S → FilePath → Option (ℕ × ℕ)
  pub now_ms : S → ℕ

-- `MultiDriveBackend`. A directory has no handle. `script_activity` is there when someone watches.
pub record Backend (H I : Type 0) : Type 0 where
  pub file_id : ℕ
  pub drive_paths : List (ℕ × FilePath)
  pub file_map : List (ℕ × Option H)
  pub file_path_map : List (ℕ × FilePath)
  pub file_device_map : List (ℕ × ℕ)
  pub file_dir_map : List (ℕ × I)
  pub delete_on_close : List (ℕ × Bool)
  pub script_activity : Option ℕ

abbrev pub new_backend : {H I : Type 0} → Backend H I
new_backend = record {
  file_id = 0;
  drive_paths = [];
  file_map = [];
  file_path_map = [];
  file_device_map = [];
  file_dir_map = [];
  delete_on_close = [];
  script_activity = none;
}

unfoldable pub add_drive : {H I : Type 0} → Backend H I → ℕ → FilePath → Backend H I
add_drive b device path = record b { drive_paths = insert ℕ_discrete device path b.drive_paths }

pub record DeviceIoRequest : Type 0 where
  pub device_id : ℕ
  pub file_id : ℕ
  pub completion_id : ℕ

pub data Disposition : Type 0 where
  file_supersede file_open file_create file_open_if file_overwrite : Disposition
  file_overwrite_if other_disposition : Disposition

-- Of the options of a create request, the two bits that are looked at.
pub record CreateRequest : Type 0 where
  pub path : Text
  pub disposition : Disposition
  pub directory_file : Bool
  pub non_directory_file : Bool

pub data InfoClass : Type 0 where
  basic standard attribute_tag both_directory other_class : InfoClass

pub data VolumeClass : Type 0 where
  full_size attribute volume size other_volume : VolumeClass

pub data SetBuffer : Type 0 where
  rename : (file_name : Text) → SetBuffer
  allocation : SetBuffer
  disposition : (delete_pending : Bool) → SetBuffer
  end_of_file : ℕ → SetBuffer
  other_buffer : SetBuffer

-- `ServerDriveIoRequest`.
pub data IoRequest : Type 0 where
  device_write : (offset : ℕ) → Bytes → IoRequest
  create_drive_request : CreateRequest → IoRequest
  device_read : (len offset : ℕ) → IoRequest
  device_close notify_change_directory device_control lock_control : IoRequest
  query_directory_request : (initial : Bool) (path : Text) → InfoClass → IoRequest
  query_information_request : InfoClass → IoRequest
  query_volume_request : VolumeClass → IoRequest
  set_information_request : SetBuffer → IoRequest

pub data NtStatus : Type 0 where
  success unsuccessful no_such_file access_denied not_a_directory : NtStatus
  no_more_files not_supported : NtStatus

pub data Information : Type 0 where
  no_information superseded opened overwritten : Information

pub record FileAttributes : Type 0 where
  pub directory : Bool
  pub archive : Bool
  pub hidden : Bool
  pub readonly : Bool

pub data FileInfo : Type 0 where
  basic_info : (created accessed written changed : ℤ) → FileAttributes → FileInfo
  standard_info : (allocation end_of_file : ℕ) (directory : Bool) → FileInfo
  tag_info : FileAttributes → FileInfo
  both_directory_info :
      (created written accessed changed : ℤ) (size : ℕ) → FileAttributes → (name : Text) → FileInfo

pub data VolumeInfo : Type 0 where
  full_size_info : (total free : ℕ) → VolumeInfo
  attribute_info : VolumeInfo
  volume_info : (created : ℤ) → VolumeInfo
  size_info : (total free : ℕ) → VolumeInfo

pub data Body : Type 0 where
  created : (file_id : ℕ) → Information → Body
  written : (length : ℕ) → Body
  data_read : Bytes → Body
  closed set_done controlled : Body
  information : Option FileInfo → Body
  volume_information : Option VolumeInfo → Body
  directory_entry : Option FileInfo → Body

-- `DeviceIoResponse` with what follows it.
pub record Response : Type 0 where
  pub header : DeviceIoRequest
  pub status : NtStatus
  pub body : Body

abbrev pub answer : DeviceIoRequest → NtStatus → Body → Response
answer h s b = record { header = h; status = s; body = b }

-- `Components` of a path after its backslashes are turned: empty parts and `.` are no-ops here.
pub data Component : Type 0 where
  normal : Text → Component
  parent_dir : Component

abbrev pub component : Text → List Component → List Component
component part cs =
    if length part == 0
    then cs
    else if text_eq part (codes ".")
    then cs
    else if text_eq part (codes "..")
    then parent_dir ∷ cs
    else normal part ∷ cs

-- `part` is the component so far.
unfoldable pub components_from : (part : Text) → Text → List Component
components_from part [] = component part []
components_from part (c ∷ s) =
    let rest = components_from [] s in
    let more = components_from (part ++ (c ∷ [])) s in
    if c == 92 || c == 47 then component part rest else more

unfoldable pub components : Text → List Component
unfolding components_from
components s = components_from [] s

abbrev pub parent : FilePath → FilePath
parent [] = []
parent (p ∷ []) = []
parent (p ∷ q ∷ ps) = p ∷ parent (q ∷ ps)

-- `PathBuf::pop` fails when the relative path has no component.
unfoldable pub resolve : FilePath → List Component → Option FilePath
resolve relative [] = some relative
resolve relative (normal part ∷ cs) = resolve (relative ++ (part ∷ [])) cs
resolve [] (parent_dir ∷ cs) = none
resolve (p ∷ ps) (parent_dir ∷ cs) = resolve (parent (p ∷ ps)) cs

abbrev pub starts_with : FilePath → FilePath → Bool
starts_with [] ps = true
starts_with (q ∷ qs) [] = false
starts_with (q ∷ qs) (p ∷ ps) = text_eq q p && starts_with qs ps
