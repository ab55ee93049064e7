-- ===== src/Json.antt =====
-- JSON values as `serde_json::Value` holds them. A number is a natural one, or any other by its
-- spelling; an object keeps its members in order.
use Prim.Native.Nat.{ℕ}
use agent_rdp.Base.{Text, Bool, Option, none, some, text_eq, if◌then◌else◌}

mutual
  pub data Json : Type 0 where
    null : Json
    bool : Bool → Json
    num : ℕ → Json
    other_num : Text → Json
    str : Text → Json
    array : Items → Json
    object : Members → Json

  pub data Items : Type 0 where
    nil : Items
    cons : Json → Items → Items

  pub data Members : Type 0 where
    end : Members
    member : Text → Json → Members → Members

-- `Value::get` on an object's members.
unfoldable pub get_member : Text → Members → Option Json
get_member k end = none
get_member k (member j v ms) = if text_eq j k then some v else get_member k ms

-- `Value::get`, which answers for objects only.
unfoldable pub get : Text → Json → Option Json
unfolding get_member
get k (object ms) = get_member k ms
get k v = none

-- `Value::as_str`, `Value::as_u64`.
abbrev pub as_str : Json → Option Text
as_str (str s) = some s
as_str v = none

abbrev pub as_u64 : Json → Option ℕ
as_u64 (num n) = some n
as_u64 v = none
