-- ===== src/Tools/Schemas/Logs.antt =====
-- argus/mcp_server/tools/logs_tools.py: the descriptions and the input schemas of its tools.
use argus_mcp_server.Dict.{Dict}
use argus_mcp_server.Prelude.{Str, str, ◌++◌, [], ◌∷◌}
use argus_mcp_server.Tools.Schemas.Build.{described, object_with, required}
use argus_mcp_server.Values.{Value}

abbrev pub get_logs_schema : Dict Value
get_logs_schema =
    object_with
      ((
        str "query",
        described (str "string") (str "Search query (Elasticsearch query_string syntax)."),
      )
        ∷ (
          str "index",
          described (str "string")
              (str "Index to search. Defaults to the configured default index."),
        )
        ∷ (str "limit", described (str "integer") (str "Maximum number of log records to return."))
        ∷ [])
      (required (str "query" ∷ []))

abbrev pub search_pod_logs_schema : Dict Value
search_pod_logs_schema =
    object_with
      ((
        str "namespace",
        described (str "string")
            (str "Kubernetes namespace to search. Omit to search across all namespaces."),
      )
        ∷ (
          str "pod",
          described (str "string") (
              str "Exact pod name to search. Omit to search across all pods matching the other "
              ++ str "filters."),
        )
        ∷ (str "container", described (str "string") (str "Exact container name to search."))
        ∷ (
          str "query",
          described (str "string") (str "Free-text substring filter applied to log lines."),
        )
        ∷ (
          str "since_minutes",
          described (str "integer") (str "How far back to search, in minutes. Defaults to 60."),
        )
        ∷ (
          str "limit",
          described (str "integer") (str "Maximum number of log lines to return. Defaults to 200."),
        )
        ∷ [])
      (required [])

abbrev pub get_logs_description : Str
get_logs_description =
    str "Search historical application/IOC logs in Elasticsearch — a separate system "
    ++ str "from live Kubernetes pod logs, use search_pod_logs instead for "
    ++ str "pod/container log history."

abbrev pub search_pod_logs_description : Str
search_pod_logs_description =
    str "Search Kubernetes pod log history in Loki (7-day retention, survives pod "
    ++ str "restarts) by namespace/pod/container and an optional free-text filter. "
    ++ str "Defaults to the last 60 minutes across all namespaces/pods when no filters "
    ++ str "are given — pass at least namespace or pod to narrow it down for anything "
    ++ str "but a broad 'what's been happening lately' sweep. For a specific "
    ++ str "device/IOC's own recent logs, prefer diagnose_device instead — it already "
    ++ str "resolves the device's pod automatically and includes this alongside live "
    ++ str "PVs, ArgoCD state, and history in one call."
