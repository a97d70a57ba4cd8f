-- ===== src/Tools/Schemas/Device.antt =====
-- argus/mcp_server/tools/device_tools.py: the descriptions and the input schemas of its tools.
use argus_mcp_server.Dict.{Dict}
use argus_mcp_server.Prelude.{Str, str, ◌++◌, [], ◌∷◌}
use argus_mcp_server.Tools.Schemas.Build.{described, object_with, required}
use argus_mcp_server.Values.{Value}

abbrev pub device_name_schema : Dict Value
device_name_schema =
    object_with
      ((
        str "device_name",
        described (str "string")
            (str "The name of the device (e.g. a quadrupole, IOC, or bare PV name)."),
      )
        ∷ [])
      (required (str "device_name" ∷ []))

abbrev pub beamline_schema : Dict Value
beamline_schema =
    object_with
      ((
        str "beamline",
        described (str "string")
            (str "Beamline or device-group name to search for and roll up status across."),
      )
        ∷ [])
      (required (str "beamline" ∷ []))

abbrev pub get_device_description : Str
get_device_description =
    str "Get full device metadata: PVs, IOC, pod, namespace, rack, owner, docs."

abbrev pub device_status_description : Str
device_status_description = str "Quick health snapshot of a device: live PV values and pod status."

abbrev pub diagnose_device_description : Str
diagnose_device_description =
    str "Full cross-system diagnostic report for a device: live PVs, history, pod, "
    ++ str "pod logs (Loki-backed 7-day history when configured, otherwise a live "
    ++ str "kubectl tail), ArgoCD state, recent logbook entries, and documentation — "
    ++ str "one call."

abbrev pub beamline_status_description : Str
beamline_status_description =
    str "DO NOT use this to discover what devices/quadrupoles/magnets exist in a "
    ++ str "beamline or zone (e.g. 'magnets on BTF1') — use list_beamline_devices for "
    ++ str "that, first. This tool only rolls up live status (PVs + pod health) for "
    ++ str "devices whose ChannelFinder channel name matches 'beamline', a fan-out over "
    ++ str "already-identified devices that can be slow on a broad match, and "
    ++ str "'beamline' here is a ChannelFinder name-match string, not a zone from the "
    ++ str "deploy YAML."
