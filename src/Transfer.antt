-- ===== src/Transfer.antt =====
-- crates/agent-rdp-daemon/src/handlers/file_transfer.rs: moving a file over the automation channel.
-- Here are its limits, what both directions check first, and what they report. Times are in
-- milliseconds, a byte is a number, and a failure stands for the response that the handler makes.
pub mod Ends
pub mod Budget
pub mod Agent
pub mod Atomic
pub mod Outcome
pub mod Push
pub mod RoundTrip
pub mod Reading
pub mod Staging
mod Tests
pub mod Verified
pub mod Pull
use agent_rdp.Json.{Json, get, as_str, as_u64}
use agent_rdp.Protocol.Errors.{ErrorCode}
use agent_rdp.Protocol.Automate.{AutomateRequest}
use agent_rdp.Dvc.Ipc.{RequestError}
use agent_rdp.TimeFormat.{utc_rfc3339}
use agent_rdp.Base.{
  ℕ, zero, suc, ◌+◌, ◌-◌, ◌*◌, ◌/◌, ◌%◌, ◌^◌, ◌≤◌, ◌<◌, min, max, ◌≡◌, refl, sym, ap, ◌∙◌, subst,
  ◌≢◌, ◌↔◌, ◌⊎◌, inl, inr, ite, Bool, true, false, not, ◌&&◌, ◌||◌, Option, none, some, List, [],
  ◌∷◌, ◌++◌, map, reverse, arith, dec_lt, dec_le, ℕ_discrete, ltb, leb, ◌==◌, if◌then◌else◌, ==_iff,
  ltb→lt, leb→le, Bool-cases, if_either, if_split, Option-cases, is_some, is_none, some_of, Result,
  Result-cases, ok, err, u32_max, u64_max, sat_add32, sat_add64, length, get_elem?, take, drop,
  length-append, length-drop, length-take, take-length, append_assoc, append-nil, reverse-cons,
  length-reverse, keep, any, all, All, All-append, length-keep-le, Text, codes, text_eq, text_eq→eq,
  text_eq_refl, text_eq_iff, Text-discrete, utf8_width, utf8_len, utf16_units, encode_utf16,
  decimal, lower, lookup, erase, insert, lookup-erase, lookup-insert, contains, discard, add,
  contains-discard, contains-add,
}

abbrev pub Bytes : Type 0
Bytes = List ℕ

abbrev pub chunk_bytes : ℕ
chunk_bytes = 192 * 1024

abbrev pub max_transfer_bytes : ℕ
max_transfer_bytes = 128 * 1024 * 1024

abbrev pub chunk_timeout : ℕ
chunk_timeout = 60000

abbrev pub verify_timeout : ℕ
verify_timeout = 300000

abbrev pub transfer_budget : ℕ
transfer_budget = 540000

abbrev pub abort_timeout : ℕ
abort_timeout = 10000

abbrev cli_transfer_slack : ℕ
cli_transfer_slack = 30000

-- What the command line allows a transfer.
abbrev pub transfer_timeout_ms : ℕ
transfer_timeout_ms = transfer_budget + cli_transfer_slack

abbrev min_step_timeout : ℕ
min_step_timeout = 5000

-- `checked_sub` gives nothing when the budget is overrun.
unfoldable pub step_timeout_for : (step elapsed : ℕ) → Option ℕ
step_timeout_for step elapsed =
    if ltb transfer_budget elapsed
    then none
    else let remaining = transfer_budget - elapsed in
      if ltb remaining min_step_timeout then none else some (min step remaining)

-- What the handler uses of other crates: base64, SHA-256 by its 32 bytes, and `Path::is_absolute`.
pub record Crates : Type 0 where
  pub encode : Bytes → Text
  pub decode : Text → Option Bytes
  pub sha256 : Bytes → Bytes
  pub is_absolute : Text → Bool

-- How it reaches the outside: a request to the agent with its deadline, the clock, a pause, and
-- the files of this machine, in a state of their own.
pub record Link (S : Type 0) : Type 0 where
  pub ask : S → AutomateRequest → ℕ → S × Result RequestError Json
  pub now : S → ℕ
  pub sleep : S → ℕ → S
  pub read_file : S → Text → S × Result Text Bytes
  pub write_file : S → Text → Bytes → S × Result Text (Unit {0})

-- Why a transfer fails; the last index and the last total of a push count chunks.
pub data TransferError : Type 0 where
  local_not_absolute remote_not_absolute : (path : Text) → TransferError
  not_connected not_enabled not_initialized not_ready : TransferError
  cannot_read cannot_write : (path reason : Text) → TransferError
  too_large : (path : Text) (size : ℕ) → TransferError
  budget_exhausted : (what : Text) (done total : ℕ) (path : Text) → TransferError
  chunk_failed : (index total : ℕ) (path : Text) → RequestError → (advice : Text) → TransferError
  no_hash not_verified : (path : Text) → TransferError
  other_hash : (path remote local : Text) → TransferError
  other_size : (path : Text) (remote local : ℕ) → TransferError
  cannot_stat : (path : Text) → RequestError → TransferError
  not_found is_a_directory : (path : Text) → TransferError
  stale : (path : Text) (age : ℕ) (modified : Text) (max_age : ℕ) → TransferError
  no_file_times : TransferError
  read_failed : (offset : ℕ) (path : Text) → RequestError → TransferError
  undecodable : TransferError
  stalled : (offset : ℕ) (path : Text) → TransferError
  changed : (path : Text) (attempts : ℕ) (remote local advice : Text) → TransferError

unfoldable code_of : TransferError → ErrorCode
code_of not_connected = ErrorCode.not_connected
code_of not_enabled = ErrorCode.automation_not_enabled
code_of not_initialized = ErrorCode.automation_error
code_of not_ready = ErrorCode.automation_error
code_of (cannot_write p r) = ErrorCode.internal_error
code_of (budget_exhausted w d t p) = ErrorCode.timeout
code_of (chunk_failed i t p e a) = ErrorCode.automation_error
code_of (no_hash p) = ErrorCode.transfer_verification_failed
code_of (not_verified p) = ErrorCode.transfer_verification_failed
code_of (other_hash p r l) = ErrorCode.transfer_verification_failed
code_of (other_size p r l) = ErrorCode.transfer_verification_failed
code_of (cannot_stat p e) = ErrorCode.automation_error
code_of (stale p a m x) = ErrorCode.stale_file
code_of no_file_times = ErrorCode.automation_error
code_of (read_failed o p e) = ErrorCode.automation_error
code_of undecodable = ErrorCode.internal_error
code_of (stalled o p) = ErrorCode.internal_error
code_of (changed p a r l v) = ErrorCode.file_changed_during_transfer
code_of _ = ErrorCode.invalid_request

abbrev is_letter : ℕ → Bool
is_letter c = leb 65 c && leb c 90 || leb 97 c && leb c 122

abbrev is_slash : ℕ → Bool
is_slash c = c == 92 || c == 47

abbrev is_drive_path : Text → Bool
is_drive_path (a ∷ b ∷ c ∷ s) = is_letter a && b == 58 && is_slash c
is_drive_path s = false

abbrev is_unc_path : Text → Bool
is_unc_path (a ∷ b ∷ s) = a == 92 && b == 92 || a == 47 && b == 47
is_unc_path s = false

unfoldable pub is_absolute_windows_path : Text → Bool
is_absolute_windows_path path = is_drive_path path || is_unc_path path

unfoldable pub check_remote_path : Text → Result TransferError (Unit {0})
unfolding is_absolute_windows_path
check_remote_path remote =
    if is_absolute_windows_path remote then ok tt else err (remote_not_absolute remote)

unfoldable pub check_paths : Crates → Text → Text → Result TransferError (Unit {0})
unfolding check_remote_path
check_paths k local remote =
    if k.is_absolute local then check_remote_path remote else err (local_not_absolute local)

-- What `ready_ipc` looks at, the session first.
pub record Readiness : Type 0 where
  pub session : Bool
  pub enabled : Bool
  pub initialized : Bool
  pub ready : Bool

unfoldable pub ready_ipc : Readiness → Result TransferError (Unit {0})
ready_ipc r =
    if not r.session
    then err not_connected
    else if not r.enabled
    then err not_enabled
    else if not r.initialized
    then err not_initialized
    else if not r.ready
    then err not_ready
    else ok tt

abbrev hex_digit : ℕ → ℕ
hex_digit n = if ltb n 10 then 48 + n else 87 + n

abbrev pub hex : Bytes → Text
hex [] = []
hex (b ∷ bs) = hex_digit (b / 16) ∷ hex_digit (b % 16) ∷ hex bs

unfoldable pub hex_digest : Crates → Bytes → Text
hex_digest k content = hex (k.sha256 content)

abbrev pub or_else {ℓ} : {A : Type ℓ} → A → Option A → A
or_else d none = d
or_else d (some a) = a

-- `value[key]`, where a missing member is `null`.
abbrev pub text_at : Text → Json → Option Text
text_at k v = elim (get k v) [ none ↦ none | some j ↦ as_str j ]

abbrev pub number_at : Text → Json → Option ℕ
number_at k v = elim (get k v) [ none ↦ none | some j ↦ as_u64 j ]

abbrev as_bool : Json → Bool
as_bool (Json.bool b) = b
as_bool v = false

abbrev pub flag_at : Text → Json → Bool
flag_at k v = elim (get k v) [ none ↦ false | some j ↦ as_bool j ]

pub record Freshness : Type 0 where
  pub modified : Text
  pub modified_unix : ℕ
  pub age_secs : ℕ

abbrev pub fresh_from : Option ℕ → Option ℕ → Option Freshness
fresh_from (some m) (some n) =
    some (record { modified = utc_rfc3339 m; modified_unix = m; age_secs = n - m })
fresh_from _ _ = none

unfoldable pub file_freshness : Json → Option Freshness
file_freshness stat =
    fresh_from (number_at (codes "modified_unix") stat) (number_at (codes "now_unix") stat)

-- `FileTransferResult`.
pub record FileTransferResult : Type 0 where
  pub path : Text
  pub bytes : ℕ
  pub sha256 : Text
  pub chunks : ℕ
  pub freshness : Option Freshness
