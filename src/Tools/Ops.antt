-- ===== src/Tools/Ops.antt =====
-- argus/mcp_server/tools/ops_tools.py: the handlers of the operations tools.
use argus_mcp_server.Dict.{Dict}
use argus_mcp_server.Effects.{Effect, pure, ◌>>=◌}
use argus_mcp_server.Prelude.{Str, str, ◌++◌, Bool, List, [], ◌∷◌, if◌then◌else◌}
use argus_mcp_server.Registry.{ToolDefinition}
use argus_mcp_server.Tools.Arguments.{arg, arg_or, require_text, str_of, as_list, reading, writing}
use argus_mcp_server.Tools.Schemas.Ops.{
  search_pvs_schema, namespace_schema, restart_ioc_schema, execute_procedure_schema,
  search_pvs_description, list_iocs_description, restart_ioc_description,
  machine_summary_description, execute_procedure_description,
}
use argus_mcp_server.Values.{Value, bool, text, int, pos, dict, end, truth}

-- The calls of OperationsService; a dataclass is the list of its fields.
pub record OpsServices (W : Type 0) : Type 0 where
  pub search_pvs : Str → (limit : Value) → Effect W (List (Dict Value))
  pub list_iocs : (namespace : Value) → Effect W (List (Dict Value))
  pub restart_ioc : (pod_name namespace : Str) → Effect W Bool
  pub execute_procedure : Str → (params : Value) → Effect W Value
  pub machine_summary : (namespace : Value) → Effect W (Dict Value)

module _ {W : Type 0} (operations_service : OpsServices W) (repr : Value → Str) where
  unfoldable pub search_pvs : Dict Value → Effect W (Dict Value)
  unfolding arg_or
  search_pvs arguments =
      require_text (str "query cannot be empty and must be a string.") (arg arguments (str "query"))
      >>= λ query.
          operations_service.search_pvs query (arg_or (int (pos 50)) arguments (str "limit"))
          >>= λ channels. pure ((str "channels", as_list channels) ∷ [])

  unfoldable pub list_iocs : Dict Value → Effect W (Dict Value)
  unfolding arg_or
  list_iocs arguments = operations_service.list_iocs (arg arguments (str "namespace")) >>= λ pods.
      pure ((str "iocs", as_list pods) ∷ [])

  unfoldable pub restart_ioc : Dict Value → Effect W (Dict Value)
  unfolding arg_or
  restart_ioc arguments =
      require_text (str "pod_name cannot be empty and must be a string.")
        (arg arguments (str "pod_name"))
      >>= λ pod_name.
          require_text (str "namespace cannot be empty and must be a string.")
            (arg arguments (str "namespace"))
          >>= λ namespace. operations_service.restart_ioc pod_name namespace >>= λ accepted. pure (
              (str "restarted", bool accepted)
              ∷ (str "pod_name", text pod_name)
              ∷ (str "namespace", text namespace)
              ∷ [])

  unfoldable pub execute_procedure : Dict Value → Effect W (Dict Value)
  unfolding arg_or
  execute_procedure arguments =
      require_text (str "name cannot be empty and must be a string.") (arg arguments (str "name"))
      >>= λ name.
          operations_service.execute_procedure name (arg_or (dict end) arguments (str "params"))
          >>= λ result. pure ((str "result", result) ∷ [])

  unfoldable pub machine_summary : Dict Value → Effect W (Dict Value)
  unfolding arg_or
  machine_summary arguments = operations_service.machine_summary (arg arguments (str "namespace"))

  -- `f"{prefix}{value}" if value else ""`
  abbrev with_value : Str → Value → Str
  with_value prefix value = if truth value then prefix ++ str_of repr value else []

  unfoldable pub describe_restart_ioc : Dict Value → Effect W Str
  unfolding arg_or
  describe_restart_ioc arguments = pure (
      str "Restart the IOC pod "
      ++ str_of repr (arg arguments (str "pod_name"))
      ++ with_value (str " in namespace ") (arg arguments (str "namespace"))
      ++ str " (its PVs go offline until it is back).")

  unfoldable pub describe_procedure : Dict Value → Effect W Str
  unfolding arg_or
  describe_procedure arguments = pure (
      str "Run the operational procedure "
      ++ repr (arg arguments (str "name"))
      ++ with_value (str " with parameters ") (arg arguments (str "params"))
      ++ str ".")

  unfoldable pub tools : List (ToolDefinition W)
  unfolding search_pvs list_iocs restart_ioc machine_summary execute_procedure describe_restart_ioc
      describe_procedure
  tools =
      reading (str "search_pvs") search_pvs_description search_pvs_schema search_pvs
      ∷ reading (str "list_iocs") list_iocs_description namespace_schema list_iocs
      ∷ writing (str "restart_ioc") restart_ioc_description restart_ioc_schema restart_ioc
          describe_restart_ioc
      ∷ reading (str "machine_summary") machine_summary_description namespace_schema machine_summary
      ∷ writing (str "execute_procedure") execute_procedure_description execute_procedure_schema
          execute_procedure describe_procedure
      ∷ []
