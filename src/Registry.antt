-- ===== src/Registry.antt =====
-- argus/mcp_server/tools/registry.py: the tools, their registration, the confirmation gate and the
-- dispatch of a call. `W` is everything that a handler can read and change behind `AppContext`.
-- Logging and the request id, which no result depends on, are left out.
pub mod Response
pub mod Gate
pub mod TwoStep
pub mod Swapped
pub mod Register
pub mod Tests
use argus_mcp_server.Dict
use argus_mcp_server.Dict.{Dict}
use argus_mcp_server.Errors.{Exception, argus, not_implemented, Result, ok, raise, code}
use argus_mcp_server.Prelude.{
  ℕ, Str, str, Bool, true, false, ◌&&◌, ◌||◌, List, [], ◌∷◌, ◌++◌, map, Option, none, some, join,
  if◌then◌else◌, ◌==◌, str_eq, keep, not,
}
use argus_mcp_server.Values.{Value, Fields, null, text, dict, int, pos, truth, end, field}
use argus_mcp_server.Confirmation.{
  ConfirmationStore, Refusal, unknown_or_expired, another_user, arguments_differ, confirmation_arg,
  without_confirmation, caller_key, issue, redeem,
}
use argus_mcp_server.Registry.Response.{Json, success_response, error_response, json_response}

abbrev confirm_note : Str
confirm_note =
    str
      " This tool WRITES. It runs in two steps: call it first WITHOUT confirmation_id - nothing is changed, "
    ++ str
        "and you get a preview and a confirmation_id. Show the user the preview in plain words and ask them "
    ++ str
        "to confirm. Only after the user explicitly says yes, call it again with exactly the same arguments "
    ++ str
        "plus that confirmation_id. Never confirm on the user's behalf, and never call it to read anything."

abbrev pub confirm_property : Value
confirm_property = dict (
    field (str "type") (text (str "string")) (
      field (str "description")
        (text (
          str "Only on the second call, after the user explicitly confirmed the preview: the "
          ++ str "confirmation_id the first call returned."))
        end))

-- What a handler or a preview does: it may raise, and what it changed before stays changed.
abbrev pub Effect : Type 0 → Type 0 → Type 0
Effect W A = W → Result A × W

pub record ToolDefinition (W : Type 0) : Type 0 where
  pub name : Str
  pub description : Str
  pub input_schema : Dict Value
  pub handler : Dict Value → Effect W (Dict Value)
  pub writes : Bool
  pub describe : Option (Dict Value → Effect W Str)
  pub always_confirm : Bool

-- `mcp.types.Tool`
pub record Tool : Type 0 where
  pub name : Str
  pub description : Str
  pub input_schema : Dict Value

-- `{**fields, k: v}`
unfoldable pub put_field : Fields → Str → Value → Fields
put_field end k v = field k v end
put_field (field j w fs) k v = if j == k then field j v fs else field j w (put_field fs k v)

-- The "properties" of an input schema, a dictionary wherever it is given.
abbrev pub properties : Option Value → Fields
properties (some (dict fs)) = fs
properties _ = end

module _ {W : Type 0} where
  unfoldable pub needs_confirmation : ToolDefinition W → Bool → Bool
  needs_confirmation tool client_confirms_writes =
      tool.writes && (client_confirms_writes || tool.always_confirm)

  unfoldable pub as_mcp_tool : ToolDefinition W → Bool → Tool
  unfolding needs_confirmation put_field
  as_mcp_tool tool confirm_writes =
      if needs_confirmation tool confirm_writes
      then record {
        name = tool.name;
        description = tool.description ++ confirm_note;
        input_schema = Dict.put tool.input_schema (str "properties") (
            dict (
              put_field (properties (Dict.get tool.input_schema (str "properties")))
                confirmation_arg confirm_property));
      }
      else record {
        name = tool.name;
        description = tool.description;
        input_schema = tool.input_schema;
      }

  -- A second tool of one name is a ValueError (`none`).
  unfoldable pub register :
      Dict (ToolDefinition W) → ToolDefinition W → Option (Dict (ToolDefinition W))
  register tools tool =
      if Dict.has tools tool.name then none else some (Dict.put tools tool.name tool)

  unfoldable pub register_many :
      Dict (ToolDefinition W) → List (ToolDefinition W) → Option (Dict (ToolDefinition W))
  unfolding register
  register_many tools [] = some tools
  register_many tools (tool ∷ rest) = elim (register tools tool) [
    | none ↦ none
    | some more ↦ register_many more rest
  ]

  unfoldable pub list_tools : Dict (ToolDefinition W) → Bool → List Tool
  unfolding as_mcp_tool
  list_tools tools confirm_writes = map (λ t. as_mcp_tool t confirm_writes) (Dict.values tools)

-- What one call reads besides its name and arguments: the clock, the random part of a new id, and
-- what the request's headers said (correlation.py, request_context.py).
pub record CallContext : Type 0 where
  pub now : ℕ
  pub random : Str
  pub caller_token : Option Str
  pub confirm_writes : Bool
  pub correlation : Option (Dict Str)

pub record State (W : Type 0) : Type 0 where
  pub confirmations : ConfirmationStore
  pub world : W

abbrev refusal_text : Refusal → Str
refusal_text unknown_or_expired =
    str "unknown or expired confirmation_id - call the tool again without it to get a new one"
refusal_text another_user = str "this confirmation_id was issued to another user"
refusal_text arguments_differ =
    str "the arguments differ from the ones that were confirmed - call the tool again without "
    ++ str "confirmation_id to preview and confirm the new ones"

abbrev next_step : Str → Str → Str
next_step name issued =
    str "Nothing has been changed. Show the user the action above and ask them to confirm. "
    ++ str "Only if they explicitly agree, call "
    ++ name
    ++ str " again with exactly the same arguments plus confirmation_id=\""
    ++ issued
    ++ str "\"."

abbrev pub required_payload : Str → Dict Value → Str → Str → ℕ → Dict Value
required_payload name call_args action issued ttl =
    (str "status", text (str "confirmation_required"))
    ∷ (str "action", text action)
    ∷ (str "tool", text name)
    ∷ (str "arguments", dict (Response.to_fields call_args))
    ∷ (confirmation_arg, text issued)
    ∷ (str "expires_in_seconds", int (pos ttl))
    ∷ (str "next_step", text (next_step name issued))
    ∷ []

-- `except` clauses of `dispatch`.
unfoldable pub error_of : Exception → Json
error_of (argus class message) = error_response (code class) message
error_of (not_implemented message) = error_response (str "not_implemented") message
error_of _ = error_response (str "internal_error") (str "An internal error occurred.")

module _ {W : Type 0} where
  -- `result = await tool.handler(arguments, ctx)` and its response.
  unfoldable pub run_handler : ToolDefinition W → Dict Value → State W → Result Json × State W
  run_handler tool arguments s =
      let (result, world) = tool.handler arguments s.world in
      (
        elim result [ ok fields ↦ success_response fields | raise e ↦ raise e ],
        record s { world = world },
      )

  -- What follows the gate: its response stands in for the handler's, or the handler runs.
  unfoldable pub after_gate :
      ToolDefinition W → Dict Value → Result (Option Json) × State W → Result Json × State W
  after_gate tool arguments (raise e, s) = (raise e, s)
  after_gate tool arguments (ok (some response), s) = (ok response, s)
  after_gate tool arguments (ok none, s) = run_handler tool (without_confirmation arguments) s

module _ (repr : Value → Str) where
  -- `str(v)`
  abbrev to_str : Value → Str
  to_str (text s) = s
  to_str v = repr v

  -- The value under `confirmation_id` if it is true, as text.
  unfoldable pub given_id : Dict Value → Option Str
  given_id arguments = elim (Dict.get arguments confirmation_arg) [
    | none ↦ none
    | some v ↦ if truth v then some (to_str v) else none
  ]

module _ (repr : Value → Str) {W : Type 0} where
  unfoldable pub preview : ToolDefinition W → Dict Value → Effect W Str
  preview tool arguments w = elim tool.describe [
    | none ↦ (
      ok (
          tool.name
          ++ str "("
          ++ join (str ", ") (map (λ e. e.0 ++ str "=" ++ repr e.1) arguments)
          ++ str ")"),
      w,
    )
    | some describe ↦ describe arguments w
  ]

-- The response that stands in for the handler's.
abbrev pub stand_in : Result Json → Result (Option Json)
stand_in (ok response) = ok (some response)
stand_in (raise e) = raise e

abbrev pub respond : Result Json → Json
respond (ok response) = response
respond (raise e) = error_of e

-- `sha256` as in Confirmation, and `repr` for the built-in.
module _ (sha256 : Str → Str) (repr : Value → Str) {W : Type 0} where
  -- The first call, after its preview: a new id, or the exception that the preview raised.
  unfoldable pub ask :
      CallContext
      → ToolDefinition W
      → Dict Value
      → Str
      → State W
      → Result Str × W
      → Result (Option Json) × State W
  ask c tool call_args caller s (raise e, world) = (raise e, record s { world = world })
  ask c tool call_args caller s (ok action, world) =
      let (store, issued) =
        issue sha256 s.confirmations c.now c.random tool.name call_args caller in
      (
        stand_in (json_response (required_payload tool.name call_args action issued store.ttl)),
        record { confirmations = store; world = world },
      )

  -- The second call: `ok none` lets the handler run.
  abbrev confirmed :
      CallContext
      → ToolDefinition W
      → Dict Value
      → Str
      → Str
      → State W
      → Result (Option Json) × State W
  confirmed c tool call_args caller confirmation_id s =
      let (store, problem) =
        redeem sha256 s.confirmations c.now confirmation_id tool.name call_args caller in
      (
        ok (elim problem [
          | some refusal ↦ some (error_response (str "confirmation_invalid") (refusal_text refusal))
          | none ↦ none
        ]),
        record s { confirmations = store },
      )

  unfoldable pub confirmation_gate :
      CallContext → ToolDefinition W → Dict Value → State W → Result (Option Json) × State W
  confirmation_gate c tool arguments s =
      let caller = caller_key sha256 c.caller_token c.correlation in
      let call_args = without_confirmation arguments in
      elim (given_id repr arguments) [
        | none ↦ ask c tool call_args caller s (preview repr tool call_args s.world)
        | some confirmation_id ↦ confirmed c tool call_args caller confirmation_id s
      ]

  -- The body of the `try`.
  unfoldable pub attempt :
      CallContext → ToolDefinition W → Dict Value → State W → Result Json × State W
  attempt c tool arguments s =
      if needs_confirmation tool c.confirm_writes
      then after_gate tool arguments (confirmation_gate c tool arguments s)
      else run_handler tool arguments s

  unfoldable pub dispatch :
      CallContext → Dict (ToolDefinition W) → Str → Dict Value → State W → Json × State W
  unfolding error_of
  dispatch c tools name arguments s = elim (Dict.get tools name) [
    | none ↦ (error_response (str "unknown_tool") (str "Unknown tool: " ++ name), s)
    | some tool ↦ let (result, s') = attempt c tool arguments s in (respond result, s')
  ]
