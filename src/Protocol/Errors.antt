-- ===== src/Protocol/Errors.antt =====
-- crates/agent-rdp-protocol/src/response.rs: the error codes.
pub data ErrorCode : Type 0 where
  not_connected already_connected connection_failed authentication_failed timeout : ErrorCode
  invalid_request not_supported internal_error session_not_found ipc_error : ErrorCode
  daemon_not_running daemon_unresponsive daemon_version_mismatch stale_file : ErrorCode
  file_changed_during_transfer transfer_verification_failed clipboard_error drive_error : ErrorCode
  automation_not_enabled automation_error automation_indeterminate element_not_found : ErrorCode
  stale_ref command_failed : ErrorCode
