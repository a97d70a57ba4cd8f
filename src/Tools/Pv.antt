-- ===== src/Tools/Pv.antt =====
-- argus/mcp_server/tools/pv_tools.py: the handlers of the PV tools.
use argus_mcp_server.Dict
use argus_mcp_server.Dict.{Dict}
use argus_mcp_server.Effects.{Effect, pure, ◌>>=◌}
use argus_mcp_server.Prelude.{Str, str, ◌++◌, List, [], ◌∷◌, Option, none, some}
use argus_mcp_server.Registry.Response
use argus_mcp_server.Registry.{ToolDefinition}
use argus_mcp_server.Tools.Arguments.{arg, arg_or, require_text, invalid, str_of, reading, writing}
use argus_mcp_server.Tools.Schemas.Pv.{
  pv_name_schema, legacy_set_pv_schema, set_pv_schema, get_pv_description, set_pv_description,
  get_pv_info_description, get_pv_value_description, set_pv_value_description,
}
use argus_mcp_server.Values.{Value, text, dict}

-- `PVValue`, as far as the tools show it.
pub record PvValue : Type 0 where
  pub value : Value
  pub timestamp : Value
  pub severity : Value
  pub status : Value

-- The calls of OperationsService: `set_pv` answers the new value, `get_pv_info` the fields.
pub record PvServices (W : Type 0) : Type 0 where
  pub get_pv : Str → Effect W PvValue
  pub set_pv : Str → Value → Effect W Value
  pub get_pv_info : Str → Effect W (Dict Value)

module _ {W : Type 0} (operations_service : PvServices W) (repr : Value → Str) where
  unfoldable pub require_pv_name : Dict Value → Effect W Str
  unfolding arg_or
  require_pv_name arguments =
      require_text (str "PV name cannot be empty and must be a string.")
        (arg arguments (str "pv_name"))

  unfoldable pub get_pv : Dict Value → Effect W (Dict Value)
  unfolding require_pv_name
  get_pv arguments = require_pv_name arguments >>= λ pv_name.
      operations_service.get_pv pv_name >>= λ result. pure (
        (str "value", result.value)
        ∷ (str "timestamp", result.timestamp)
        ∷ (str "severity", result.severity)
        ∷ (str "status_field", result.status)
        ∷ [])

  unfoldable pub get_pv_value_legacy : Dict Value → Effect W (Dict Value)
  unfolding require_pv_name
  get_pv_value_legacy arguments = require_pv_name arguments >>= λ pv_name.
      operations_service.get_pv pv_name >>= λ result. pure ((str "value", result.value) ∷ [])

  abbrev pub write_given : Str → Option Value → Effect W (Dict Value)
  write_given pv_name none = invalid (str "Missing required argument: value")
  write_given pv_name (some value) = operations_service.set_pv pv_name value >>= λ new_value. pure (
      (
        str "message",
        text (str "Successfully set PV '" ++ pv_name ++ str "' to: " ++ str_of repr new_value),
      )
      ∷ [])

  unfoldable pub set_pv : Dict Value → Effect W (Dict Value)
  unfolding require_pv_name
  set_pv arguments = require_pv_name arguments >>= λ pv_name.
      write_given pv_name (Dict.get arguments (str "value"))

  unfoldable pub set_pv_value_legacy : Dict Value → Effect W (Dict Value)
  unfolding require_pv_name
  set_pv_value_legacy arguments = require_pv_name arguments >>= λ pv_name.
      require_text (str "PV value cannot be empty and must be a string.")
        (arg arguments (str "pv_value"))
      >>= λ pv_value. operations_service.set_pv pv_name (text pv_value) >>= λ new_value. pure (
          (
            str "message",
            text (str "Successfully set PV '" ++ pv_name ++ str "' value to: " ++ pv_value),
          )
          ∷ [])

  unfoldable pub get_pv_info : Dict Value → Effect W (Dict Value)
  unfolding require_pv_name
  get_pv_info arguments = require_pv_name arguments >>= λ pv_name.
      operations_service.get_pv_info pv_name >>= λ info.
      pure ((str "info", dict (Response.to_fields info)) ∷ [])

  unfoldable pub describe_set_pv : Dict Value → Effect W Str
  unfolding arg_or
  describe_set_pv arguments = pure (
      str "Write "
      ++ repr (arg_or (arg arguments (str "pv_value")) arguments (str "value"))
      ++ str " to PV "
      ++ str_of repr (arg arguments (str "pv_name"))
      ++ str " (a live change to the machine).")

  unfoldable pub tools : List (ToolDefinition W)
  unfolding get_pv set_pv get_pv_info get_pv_value_legacy set_pv_value_legacy describe_set_pv
  tools =
      reading (str "get_pv") get_pv_description pv_name_schema get_pv
      ∷ writing (str "set_pv") set_pv_description set_pv_schema set_pv describe_set_pv
      ∷ reading (str "get_pv_info") get_pv_info_description pv_name_schema get_pv_info
      ∷ reading (str "get_pv_value") get_pv_value_description pv_name_schema get_pv_value_legacy
      ∷ writing (str "set_pv_value") set_pv_value_description legacy_set_pv_schema
          set_pv_value_legacy describe_set_pv
      ∷ []
