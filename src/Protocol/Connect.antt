-- ===== src/Protocol/Connect.antt =====
-- crates/agent-rdp-protocol/src/request.rs: the connect request and its validation.
use agent_rdp.Base.{
  ℕ, ◌*◌, Bool, true, false, not, ◌&&◌, Option, none, List, [], ◌∷◌, ◌++◌, ltb, ◌==◌, if◌then◌else◌,
  Result, ok, err, Text, codes, decimal,
}

pub record DriveMapping : Type 0 where
  pub path : Text
  pub name : Text

pub record ConnectRequest : Type 0 where
  pub host : Text
  pub port : ℕ
  pub username : Text
  pub password : Text
  pub domain : Option Text
  pub width : ℕ
  pub height : ℕ
  pub drives : List DriveMapping
  pub enable_win_automation : Bool
  pub stream_port : ℕ
  pub stream_bind : Text
  pub stream_fps : ℕ
  pub stream_quality : ℕ
  pub serve_viewer : Bool
  pub keep_alive_secs : ℕ
  pub defer_agent : Bool
  pub auto_reconnect : Bool
  pub allow_empty_password : Bool

-- `ConnectRequest::default`.
abbrev pub default_request : ConnectRequest
default_request = record {
  host = [];
  port = 3389;
  username = [];
  password = [];
  domain = none;
  width = 1280;
  height = 800;
  drives = [];
  enable_win_automation = false;
  stream_port = 0;
  stream_bind = codes "127.0.0.1";
  stream_fps = 10;
  stream_quality = 80;
  serve_viewer = false;
  keep_alive_secs = 45;
  defer_agent = false;
  auto_reconnect = false;
  allow_empty_password = false;
}

abbrev pub keep_alive_min_secs : ℕ
keep_alive_min_secs = 10

-- The three refusals, in the order of the tests; each stands for its message.
pub data ConnectRefusal : Type 0 where
  keep_alive_too_short agent_to_defer_missing password_empty : ConnectRefusal

abbrev is_empty : Text → Bool
is_empty [] = true
is_empty (c ∷ s) = false

unfoldable pub validate_connect_request : ConnectRequest → Result ConnectRefusal (Unit {0})
validate_connect_request r =
    if not (r.keep_alive_secs == 0) && ltb r.keep_alive_secs keep_alive_min_secs
    then err keep_alive_too_short
    else if r.defer_agent && not r.enable_win_automation
    then err agent_to_defer_missing
    else if is_empty r.password && not r.allow_empty_password
    then err password_empty
    else ok tt

-- The messages, which the refusals stand for.
unfoldable pub refusal_text : ConnectRequest → ConnectRefusal → Text
refusal_text r keep_alive_too_short =
    codes "keep_alive_secs must be 0 (disabled) or at least "
    ++ (decimal keep_alive_min_secs
        ++ (codes ": the interval is also the liveness window, and "
            ++ (decimal (r.keep_alive_secs * 3)
                ++ codes "s of silence is not evidence of a dead server")))
refusal_text r agent_to_defer_missing =
    codes "defer_agent needs enable_win_automation: without automation there is no agent "
    ++ codes "to defer, and the flag would be silently ignored"
refusal_text r password_empty =
    codes "the password is empty - usually a secret lookup that produced nothing (an unset "
    ++ (codes "variable, or a --password-stdin pipe with no bytes). CredSSP reports this exactly "
        ++ (codes
              "like a wrong password, so it is refused here instead. Pass --allow-empty-password "
            ++ codes "if the account really has none"))
