-- ===== src/Correlation.antt =====
-- argus/mcp_server/correlation.py, the caller's part of argus/core/request_context.py and the
-- handlers of argus/mcp_server/server.py: what a request's headers say of the caller, and the
-- context that a tool call is dispatched in. A request is its headers by lower-case name, or none without
-- HTTP or without headers.
pub mod Caller
pub mod Tests
use argus_mcp_server.Dict
use argus_mcp_server.Dict.{Dict}
use argus_mcp_server.Registry.{ToolDefinition, Tool, CallContext, State, list_tools, dispatch}
use argus_mcp_server.Registry.Response.{Json}
use argus_mcp_server.Values.{Value}
use argus_mcp_server.Prelude.{
  Str, str, ◌++◌, Bool, true, false, ◌||◌, List, [], ◌∷◌, Option, none, some, any, drop, contains,
  starts_with, strip, lower, nonempty, or_else, ℕ, if◌then◌else◌, ◌==◌, str_eq,
}

abbrev pub Request : Type 0
Request = Option (Dict Str)

abbrev pub header_to_field : Dict Str
header_to_field =
    (str "x-librechat-conversation-id", str "conversation_id")
    ∷ (str "x-librechat-message-id", str "message_id")
    ∷ (str "x-librechat-user-id", str "user_id")
    ∷ []

abbrev pub caller_token_header : Str
caller_token_header = str "x-argus-user-token"

abbrev pub confirm_writes_header : Str
confirm_writes_header = str "x-argus-confirm-writes"

abbrev put_nonempty : Dict Str → Str → Option Str → Dict Str
put_nonempty result field none = result
put_nonempty result field (some []) = result
put_nonempty result field (some (c ∷ value)) = Dict.put result field (c ∷ value)

unfoldable pub extract_fields : Dict Str → Dict Str → Dict Str → Dict Str
extract_fields headers result [] = result
extract_fields headers result ((header_name, field) ∷ names) =
    extract_fields headers (put_nonempty result field (Dict.get headers header_name)) names

unfoldable pub extract_correlation_headers : Request → Dict Str
unfolding extract_fields
extract_correlation_headers none = []
extract_correlation_headers (some headers) = extract_fields headers [] header_to_field

-- The value without a leading "Bearer ".
abbrev pub drop_bearer : Str → Str
drop_bearer value =
    if starts_with (lower value) (str "bearer ") then strip (drop 7 value) else value

abbrev pub usable : Str → Option Str
usable [] = none
usable (c ∷ value) = if contains (c ∷ value) (str "{{") then none else some (c ∷ value)

unfoldable pub extract_caller_token : Request → Option Str
unfolding lower strip
extract_caller_token none = none
extract_caller_token (some headers) =
    usable (drop_bearer (strip (or_else (Dict.get headers caller_token_header) [])))

unfoldable pub extract_confirm_writes : Request → Bool
unfolding lower strip
extract_confirm_writes none = false
extract_confirm_writes (some headers) =
    any (λ yes. yes == lower (strip (or_else (Dict.get headers confirm_writes_header) [])))
      (str "true" ∷ str "1" ∷ str "yes" ∷ [])

-- What a call is handled with: the context of its request, at a time and with the random part of an
-- id that the call may issue.
abbrev pub context_of : Request → ℕ → Str → CallContext
context_of request now random = record {
  now = now;
  random = random;
  caller_token = extract_caller_token request;
  confirm_writes = extract_confirm_writes request;
  correlation = some (extract_correlation_headers request);
}

module _ {W : Type 0} where
  unfoldable pub handle_list_tools : Dict (ToolDefinition W) → Request → List Tool
  unfolding list_tools extract_confirm_writes
  handle_list_tools tools request = list_tools tools (extract_confirm_writes request)

  module _ (sha256 : Str → Str) (repr : Value → Str) where
    unfoldable pub handle_call_tool :
        Dict (ToolDefinition W)
        → Request
        → (now : ℕ) (random name : Str) (arguments : Dict Value) → State W
        → Json × State W
    unfolding dispatch
    handle_call_tool tools request now random name arguments s =
        dispatch sha256 repr (context_of request now random) tools name arguments s
