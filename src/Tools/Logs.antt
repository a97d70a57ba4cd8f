-- ===== src/Tools/Logs.antt =====
-- argus/mcp_server/tools/logs_tools.py: the handlers of the log tools, over the history service.
use argus_mcp_server.Dict.{Dict}
use argus_mcp_server.Effects.{Effect, pure, ◌>>=◌}
use argus_mcp_server.Errors.{Result}
use argus_mcp_server.History.{Clock, HistoryProviders, get_logs, search_pod_logs}
use argus_mcp_server.Prelude.{str, List, [], ◌∷◌, none}
use argus_mcp_server.Registry.{ToolDefinition}
use argus_mcp_server.Tools.Arguments.{arg, arg_or, require_text, lift, as_list, reading}
use argus_mcp_server.Tools.Schemas.Logs.{
  get_logs_schema, search_pod_logs_schema, get_logs_description, search_pod_logs_description,
}
use argus_mcp_server.Values.{Value, int, pos}

-- `minutes_before minutes` is `now - timedelta(minutes=minutes)`, which raises where `minutes` is no
-- number or too large a one.
module _ {W Time : Type 0} (clock : Clock Time) (history_service : HistoryProviders W Time)
    (minutes_before : Value → Result Time) where
  unfoldable pub get_logs_handler : Dict Value → Effect W (Dict Value)
  unfolding arg_or get_logs
  get_logs_handler arguments =
      require_text (str "query cannot be empty and must be a string.") (arg arguments (str "query"))
      >>= λ query.
          get_logs clock history_service query (arg arguments (str "index")) none
            (arg_or (int (pos 100)) arguments (str "limit"))
          >>= λ records. pure ((str "logs", as_list records) ∷ [])

  unfoldable pub search_pod_logs_handler : Dict Value → Effect W (Dict Value)
  unfolding arg_or search_pod_logs
  search_pod_logs_handler arguments =
      lift (minutes_before (arg_or (int (pos 60)) arguments (str "since_minutes"))) >>= λ since.
      search_pod_logs clock history_service (arg arguments (str "namespace"))
        (arg arguments (str "pod")) (arg arguments (str "container")) (arg arguments (str "query"))
        since (arg_or (int (pos 200)) arguments (str "limit"))
      >>= λ entries. pure ((str "logs", as_list entries) ∷ [])

  unfoldable pub tools : List (ToolDefinition W)
  unfolding get_logs_handler search_pod_logs_handler
  tools =
      reading (str "get_logs") get_logs_description get_logs_schema get_logs_handler
      ∷ reading (str "search_pod_logs") search_pod_logs_description search_pod_logs_schema
          search_pod_logs_handler
      ∷ []
