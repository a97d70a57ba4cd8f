-- ===== src/Tools/Schemas/Ops.antt =====
-- argus/mcp_server/tools/ops_tools.py: the descriptions and the input schemas of its tools.
use argus_mcp_server.Dict.{Dict}
use argus_mcp_server.Prelude.{Str, str, ◌++◌, [], ◌∷◌}
use argus_mcp_server.Tools.Schemas.Build.{described, object_with, required}
use argus_mcp_server.Values.{Value}

abbrev pub search_pvs_schema : Dict Value
search_pvs_schema =
    object_with
      ((
        str "query",
        described (str "string") (str "PV name pattern, tag, or property to search for."),
      )
        ∷ (str "limit", described (str "integer") (str "Maximum number of results to return."))
        ∷ [])
      (required (str "query" ∷ []))

abbrev pub namespace_schema : Dict Value
namespace_schema =
    object_with
      ((
        str "namespace",
        described (str "string") (str "Kubernetes namespace. Defaults to the configured default."),
      )
        ∷ [])
      (required [])

abbrev pub restart_ioc_schema : Dict Value
restart_ioc_schema =
    object_with
      ((
        str "pod_name",
        described (str "string") (str "The Kubernetes pod name of the IOC to restart."),
      )
        ∷ (str "namespace", described (str "string") (str "Kubernetes namespace the pod runs in."))
        ∷ [])
      (required (str "pod_name" ∷ str "namespace" ∷ []))

abbrev pub execute_procedure_schema : Dict Value
execute_procedure_schema =
    object_with
      ((
        str "name",
        described (str "string") (str "The name of the pre-approved operational procedure to run."),
      )
        ∷ (str "params", described (str "object") (str "Parameters for the procedure."))
        ∷ [])
      (required (str "name" ∷ []))

abbrev pub search_pvs_description : Str
search_pvs_description =
    str "DO NOT use this to discover devices, IOCs, zones, or device types (e.g. "
    ++ str "'magnets in BTF1', 'what quadrupoles exist') — use list_beamline_devices "
    ++ str "for that, every time, first. Only use search_pvs when a specific PV "
    ++ str "name/tag/property is already what's being asked about (e.g. 'find the PV "
    ++ str "for QUATB002's current readback'). ChannelFinder's channel naming/tagging "
    ++ str "does not correspond to device-type words like 'magnet' or 'quadrupole', so "
    ++ str "using this tool for discovery returns wrong/empty results — it searches PVs "
    ++ str "already registered in ChannelFinder by name pattern, tag, or property, "
    ++ str "nothing else."

abbrev pub list_iocs_description : Str
list_iocs_description = str "List running IOCs and their Kubernetes pod status."

abbrev pub restart_ioc_description : Str
restart_ioc_description = str "Restart an IOC's pod."

abbrev pub machine_summary_description : Str
machine_summary_description =
    str "High-level machine-wide summary: IOC health counts and recent alarm count."

abbrev pub execute_procedure_description : Str
execute_procedure_description = str "Run a named, pre-approved operational procedure."
