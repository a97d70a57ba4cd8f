-- ===== src/Registry/Tests.antt =====
-- The registry on a small set of tools. The world is the number of writes done.
use argus_mcp_server.Dict
use argus_mcp_server.Dict.{Dict}
use argus_mcp_server.Errors.{ok, raise, unexpected}
use argus_mcp_server.Prelude.{
  ℕ, ◌+◌, Str, str, true, false, [], ◌∷◌, none, some, ◌≡◌, ◌≢◌, str_beq_iff, refl, arith, str_eq,
  str_beq, join, str_leb,
}
use argus_mcp_server.Values.{
  Value, text, truth, object, float, nan, field, end, finite, list, cons, nil,
}
use argus_mcp_server.Values.Canonical.{write_object, dumps_dict}
use argus_mcp_server.Confirmation.{
  empty_store, issue, redeem, caller_key, canonical, arguments_digest, without_confirmation,
}
use argus_mcp_server.Confirmation.History.{SameCall}
use argus_mcp_server.Confirmation.Redeem.{Confirms, redeem-Confirms}
use argus_mcp_server.Registry.Response.{Json, json_response, success_response, error_response}
use argus_mcp_server.Registry.Gate.{dispatch-Unconfirmed, handled, caller_of}
use argus_mcp_server.Registry.TwoStep.{dispatch_twice}
use argus_mcp_server.Registry.Swapped.{SameRepeat, dispatch_swapped}
use argus_mcp_server.Confirmation.Binding.{IsRequest}
use argus_mcp_server.Registry.Register.{as_mcp_tool-schema, get_field}
use argus_mcp_server.Registry.{
  ToolDefinition, State, CallContext, Effect, register_many, dispatch, given_id, preview,
  needs_confirmation, attempt, confirmation_gate, ask, after_gate, run_handler, error_of,
  as_mcp_tool, properties, confirm_property,
}

abbrev plain_hash : Str → Str
plain_hash s = s

abbrev shown : Value → Str
shown (text s) = s
shown _ = str "?"

abbrev write_one : Dict Value → Effect ℕ (Dict Value)
write_one arguments w = (ok ((str "message", text (str "written")) ∷ []), w + 1)

abbrev write_two : Dict Value → Effect ℕ (Dict Value)
write_two arguments w = (ok [], w + 2)

abbrev set_pv : ToolDefinition ℕ
set_pv = record {
  name = str "set_pv";
  description = str "Write a PV.";
  input_schema = (str "type", text (str "object")) ∷ [];
  handler = write_one;
  writes = true;
  describe = none;
  always_confirm = false;
}

abbrev get_pv : ToolDefinition ℕ
get_pv = record set_pv {
  name = str "get_pv";
  description = str "Read a PV.";
  handler = λ arguments w. (raise (unexpected (str "secret")), w);
  writes = false;
}

abbrev tools : Dict (ToolDefinition ℕ)
tools = (str "set_pv", set_pv) ∷ (str "get_pv", get_pv) ∷ []

abbrev other_tools : Dict (ToolDefinition ℕ)
other_tools = (str "set_pv", record set_pv { handler = write_two }) ∷ []

abbrev call_at : ℕ → CallContext
call_at now = record {
  now = now;
  random = str "abc";
  caller_token = none;
  confirm_writes = true;
  correlation = none;
}

abbrev arguments : Dict Value
arguments = (str "value", text (str "4")) ∷ []

abbrev confirmed_arguments : Dict Value
confirmed_arguments = (str "confirmation_id", text (str "confirm-abc")) ∷ arguments

abbrev start : State ℕ
start = record { confirmations = empty_store; world = 0 }

program : Unit {0}
unfolding dispatch attempt needs_confirmation confirmation_gate ask after_gate run_handler given_id
    preview json_response success_response issue redeem arguments_digest canonical caller_key
    write_object dumps_dict join str_leb Dict.get Dict.put Dict.update Dict.remove str_beq truth
    without_confirmation error_of
program = tt

abbrev asked : State ℕ
asked = (dispatch plain_hash shown (call_at 100) tools (str "set_pv") arguments start).1

-- The first call writes nothing.
asked_world : asked.world ≡ 0
unfolding program
asked_world = refl

-- A second call in time writes once; a third with the same id writes nothing more.
confirmed_world :
    (dispatch plain_hash shown (call_at 300) tools (str "set_pv") confirmed_arguments asked).1.world
    ≡ 1
unfolding program
confirmed_world = refl

repeated_world :
    (dispatch plain_hash shown
      (call_at 301)
      tools
      (str "set_pv")
      confirmed_arguments
      (dispatch plain_hash shown
        (call_at 300)
        tools
        (str "set_pv")
        confirmed_arguments
        asked).1).1.world
    ≡ 1
unfolding program
repeated_world = refl

asked-Confirms :
    Confirms plain_hash asked.confirmations 300
      (str "confirm-abc")
      (str "set_pv")
      (without_confirmation confirmed_arguments)
      (caller_of plain_hash (call_at 300))
unfolding program
asked-Confirms =
    (redeem-Confirms plain_hash asked.confirmations 300 (str "confirm-abc") (str "set_pv")
        (without_confirmation confirmed_arguments) (caller_of plain_hash (call_at 300))
        (refl, tt)).0
      refl

dispatch-Unconfirmed_example :
    dispatch plain_hash shown (call_at 100) tools (str "set_pv") arguments start
    ≡ dispatch plain_hash shown (call_at 100) other_tools (str "set_pv") arguments start
unfolding program
dispatch-Unconfirmed_example =
    dispatch-Unconfirmed plain_hash shown (call_at 100) tools other_tools (str "set_pv") arguments
      start set_pv write_two refl refl refl tt (λ id e. absurd (ground arith))

required_response : Json
required_response = (dispatch plain_hash shown (call_at 100) tools (str "set_pv") arguments start).0

same_arguments : SameCall arguments confirmed_arguments
unfolding without_confirmation Dict.get str_beq
same_arguments = record { first = (refl, tt); second = (refl, tt); lookups = λ k. refl }

dispatch_twice_example :
    (dispatch plain_hash shown (call_at 100) tools (str "set_pv") arguments start
      ≡ (required_response, record { confirmations = asked.confirmations; world = 0 }))
    × (dispatch plain_hash shown
          (call_at 300)
          tools
          (str "set_pv")
          confirmed_arguments
          (record { confirmations = asked.confirmations; world = 0 })
        ≡ handled plain_hash shown set_pv confirmed_arguments (record {
          confirmations =
              (redeem plain_hash asked.confirmations 300
                (str "confirm-abc")
                (str "set_pv")
                (without_confirmation confirmed_arguments)
                (caller_of plain_hash (call_at 300))).0;
          world = 0;
        }))
unfolding program required_response
dispatch_twice_example =
    dispatch_twice plain_hash shown (call_at 100) (call_at 300) tools (str "set_pv") arguments
      confirmed_arguments start set_pv (str "set_pv(value=4)") 0 required_response refl refl refl tt
      refl refl refl refl same_arguments refl (omega arith)

-- A name that is taken is refused.
register_again : register_many tools (get_pv ∷ []) ≡ none
unfolding register_many Dict.get str_beq
register_again = refl

type_is_not_properties : str "type" ≢ str "properties"
type_is_not_properties = ground (arith, str_beq_iff (str "type") (str "properties"))

as_mcp_tool-schema_example :
    (get_field
        (properties (Dict.get (as_mcp_tool set_pv true).input_schema (str "properties")))
        (str "confirmation_id")
      ≡ some confirm_property)
    × (Dict.get (as_mcp_tool set_pv true).input_schema (str "type")
        ≡ Dict.get set_pv.input_schema (str "type"))
unfolding needs_confirmation str_beq
as_mcp_tool-schema_example =
    as_mcp_tool-schema set_pv true (str "confirmation_id") (str "type") type_is_not_properties

abbrev readings : Dict Value
readings = (str "values", list (cons (float nan) (cons (float (finite (str "4.2"))) nil))) ∷ []

-- An instance that holds a NaN is the one payload that cannot be written.
object_with_nan :
    (dispatch plain_hash shown
      (call_at 1)
      ((
        str "get_pv",
        record get_pv {
          handler = λ a w. (
            ok ((str "v", object (str "PVValue") (field (str "value") (float nan) end)) ∷ []),
            w,
          );
        },
      )
        ∷ [])
      (str "get_pv")
      []
      start).0
    ≡ error_response (str "internal_error") (str "An internal error occurred.")
unfolding program
object_with_nan = refl

-- The confirmed call with another value.
abbrev swapped_arguments : Dict Value
swapped_arguments =
    (str "confirmation_id", text (str "confirm-abc")) ∷ (str "value", text (str "400")) ∷ []

swapped_differs :
    ¬ SameRepeat plain_hash
      (call_at 100)
      (call_at 300)
      (str "set_pv")
      (without_confirmation arguments)
      (str "set_pv")
      (without_confirmation swapped_arguments)
unfolding program
swapped_differs same = absurd (ground (arith, same.1.same_texts (str "value") (str "4") refl))

asked-IsRequest : IsRequest (str "set_pv") (without_confirmation arguments)
unfolding without_confirmation Dict.get str_beq
asked-IsRequest = (omega arith, ((refl, tt), omega arith))

swapped-IsRequest : IsRequest (str "set_pv") (without_confirmation swapped_arguments)
unfolding without_confirmation Dict.get str_beq
swapped-IsRequest = (omega arith, ((refl, tt), omega arith))

dispatch_swapped_example :
    dispatch plain_hash shown (call_at 300) tools (str "set_pv") swapped_arguments asked
    ≡ dispatch plain_hash shown (call_at 300) other_tools (str "set_pv") swapped_arguments asked
unfolding program
dispatch_swapped_example =
    dispatch_swapped plain_hash shown (call_at 100) (call_at 300) tools other_tools (str "set_pv")
      (str "set_pv") arguments swapped_arguments start 0 set_pv write_two refl refl refl tt
      asked-IsRequest swapped-IsRequest (λ same. same) refl swapped_differs
