-- ===== src/Identity.antt =====
-- identity.py of civ5_agent. A new identifier is random: it is an argument where the source makes
-- one.
use Prim.Native.String.{◌++◌}
use civ5_agent_macos.Base.{String, Bool, false, is_uuid4, if◌then◌else◌}
use civ5_agent_macos.Python.{Value, str, Result, ok, err, invalid}

-- `_validate_uuid4`'s test: `UUID(value)` parses, has version 4, and prints as `value`.
abbrev pub is_uuid_value : Value → Bool
is_uuid_value (str s) = is_uuid4 s
is_uuid_value _ = false

unfoldable pub validate_uuid4 : Value → String → Result Value
validate_uuid4 v label =
    if is_uuid_value v then ok v else err (invalid (label ++ " must be a canonical UUIDv4"))

abbrev pub validate_bridge_session_id : Value → Result Value
validate_bridge_session_id v = validate_uuid4 v "bridge_session_id"

abbrev pub validate_match_id : Value → Result Value
validate_match_id v = validate_uuid4 v "match_id"

abbrev pub validate_plan_id : Value → Result Value
validate_plan_id v = validate_uuid4 v "plan_id"

abbrev pub validate_command_id : Value → Result Value
validate_command_id v = validate_uuid4 v "command_id"
