-- ===== src/Tools/Schemas/Beamline.antt =====
-- argus/mcp_server/tools/beamline_tools.py: the descriptions and the input schemas of its tools.
use argus_mcp_server.Dict.{Dict}
use argus_mcp_server.Prelude.{Str, str, ◌++◌, [], ◌∷◌}
use argus_mcp_server.Tools.Schemas.Build.{described, object_with, required}
use argus_mcp_server.Values.{Value}

abbrev pub list_devices_schema : Dict Value
list_devices_schema =
    object_with
      ((
        str "repo",
        described (str "string") (
            str "Optional - defaults to this beamline's own configured repo "
            ++ str "(GIT_DEFAULT_REPOS) when omitted, which is correct for almost every call. "
            ++ str "Only pass this to look at a *different* beamline's repo instead - do not "
            ++ str "guess a URL from this beamline's name (repo naming isn't consistent, e.g. "
            ++ str "epik8s-btf.git but epik8-sparc.git). A git URL, e.g. "
            ++ str "https://github.com/infn-epics/ioc-chart.git or "
            ++ str "https://baltig.infn.it/lnf-da-control/epik8s-btf.git."),
      )
        ∷ (
          str "path",
          described (str "string") (
              str "Path to the beamline's epik8s-style deploy YAML. Defaults to "
              ++ str "'deploy/values.yaml'."),
        )
        ∷ (
          str "ref",
          described (str "string") (
              str "Git ref to read. Defaults to 'HEAD', which resolves to whatever branch this "
              ++ str "beamline is actually deployed from (GIT_DEFAULT_REF) — not necessarily the "
              ++ str "repo's default branch. Only pass this to look at a *different* ref (a "
              ++ str "specific tag/commit, or another branch)."),
        )
        ∷ (
          str "devgroup",
          described (str "string") (
              str "Filter by device group, e.g. 'mag' (magnets), 'vac' (vacuum), 'mot' "
              ++ str "(motors), 'cam' (cameras), 'diag' (diagnostics)."),
        )
        ∷ (
          str "devfunc",
          described (str "string") (
              str "Filter by device function within a group. Within 'mag': 'QUA' (quadrupole), "
              ++ str "'COR' (corrector), 'DIP' (dipole), 'SOL' (solenoid), 'SEX' (sextupole), "
              ++ str "'UFS'. Within 'mot': 'SLT' (slit), 'FLG' (flag), 'MIR' (mirror), "
              ++ str "'HMOT'/'VMOT' (horiz/vert motor), or 'MOT' (generic). Within 'vac': 'ion' "
              ++ str "(ion pump)."),
        )
        ∷ (
          str "zone",
          described (str "string") (str "Filter by zone, e.g. 'BTF1', 'BTF2', 'LINAC'."),
        )
        ∷ [])
      (required [])

abbrev pub hub_list_devices_schema : Dict Value
hub_list_devices_schema =
    object_with
      ((
        str "workspace",
        described (str "string") (
            str "Optional - the ARGUS Knowledge Hub workspace to list (see "
            ++ str "list_knowledge_hub_workspaces). Omit to list every workspace this server "
            ++ str "asks in, which is correct for almost every call."),
      )
        ∷ (
          str "devgroup",
          described (str "string") (
              str "Filter by device group, e.g. 'mag' (magnets), 'vac' (vacuum), 'mot' "
              ++ str "(motors), 'cam' (cameras), 'diag' (diagnostics)."),
        )
        ∷ (
          str "devfunc",
          described (str "string") (
              str "Filter by device function within a group. Within 'mag': 'QUA' (quadrupole), "
              ++ str "'COR' (corrector), 'DIP' (dipole), 'SOL' (solenoid), 'SEX' (sextupole), "
              ++ str "'UFS'. Within 'mot': 'SLT' (slit), 'FLG' (flag), 'MIR' (mirror), "
              ++ str "'HMOT'/'VMOT' (horiz/vert motor), or 'MOT' (generic). Within 'vac': 'ion' "
              ++ str "(ion pump)."),
        )
        ∷ (
          str "zone",
          described (str "string") (str "Filter by zone, e.g. 'BTF1', 'BTF2', 'LINAC'."),
        )
        ∷ [])
      (required [])

abbrev pub yaml_description : Str
yaml_description =
    str "THE DEFAULT, FIRST TOOL for any question involving IOCs, devices, device "
    ++ str "names, device types, zones, or device groups (magnets/mag, vacuum/vac, "
    ++ str "motors/mot, cameras/cam, diagnostics/diag) — e.g. 'what "
    ++ str "magnets/quadrupoles/vacuum devices exist on this beamline or zone'. This is "
    ++ str "the main source of information: it is on the YAML, not in PV search. Do not "
    ++ str "call search_pvs or beamline_status first and do not retry them repeatedly "
    ++ str "hoping for a different result — if the question is about what exists rather "
    ++ str "than a live PV value, call this tool first, once. repo is optional and "
    ++ str "defaults to THIS beamline's own configured repo — call with no repo "
    ++ str "argument for 'this beamline's own devices', which is almost always what's "
    ++ str "wanted; never guess a repo URL from the beamline's name, only pass repo "
    ++ str "explicitly to look at a *different* beamline's inventory. Returns the "
    ++ str "beamline's device inventory parsed from its epik8s-style deploy YAML, with "
    ++ str "iocDefaults template values already merged in — many IOCs only declare a "
    ++ str "'template' and inherit devgroup/devtype from iocDefaults[template] rather "
    ++ str "than setting it directly, so reading the raw file yourself and grep-ing for "
    ++ str "devgroup will undercount. Each device also gets a devfunc classification "
    ++ str "within its devgroup (e.g. QUA/COR/DIP/SOL within 'mag') derived the same "
    ++ str "way the control-room OPI console does it. Each device also includes "
    ++ str "key_pvs: a role -> exact PV name map for that device type's important "
    ++ str "setpoint/readback PVs (e.g. a 'mag' device's key_pvs has "
    ++ str "current_setpoint/current_readback/state_setpoint/state_readback) — for "
    ++ str "'what's the current/status of this power supply' questions, read the PV "
    ++ str "name straight from key_pvs and call get_pv/get_pv_value on it directly; do "
    ++ str "not guess or search for the PV name. key_pvs is empty for device types with "
    ++ str "no registered convention yet. Filter with devgroup/devfunc/zone, or omit "
    ++ str "them to list everything. For raw file content, history, or metadata this "
    ++ str "doesn't model (asset links, IOC-level params, template names), use "
    ++ str "get_config_history instead."

abbrev pub hub_description : Str
hub_description =
    str "THE DEFAULT, FIRST TOOL for any question involving IOCs, devices, device "
    ++ str "names, device types, zones, or device groups (magnets/mag, vacuum/vac, "
    ++ str "motors/mot, cameras/cam, diagnostics/diag) — e.g. 'what "
    ++ str "magnets/quadrupoles/vacuum devices exist on this beamline or zone'. This is "
    ++ str "the main source of information: it is in the ARGUS Knowledge Hub, not in PV "
    ++ str "search. Do not call search_pvs or beamline_status first and do not retry "
    ++ str "them repeatedly hoping for a different result — if the question is about "
    ++ str "what exists rather than a live PV value, call this tool first, once. "
    ++ str "Returns the beamline's device inventory as recorded in the ARGUS Knowledge "
    ++ str "Hub: the Control Device records imported from each beamline's epik8s "
    ++ str "configuration, with iocDefaults template values already merged in, across "
    ++ str "every hub workspace this server asks in (workspace narrows it to one; call "
    ++ str "with no arguments for 'this beamline's own devices'). Each device has a "
    ++ str "devgroup, a devfunc classification within it (e.g. QUA/COR/DIP/SOL within "
    ++ str "'mag'), the workspace it was read in, and a link — a ready Markdown link to "
    ++ str "the device's page in the hub: when you mention a device, write its link "
    ++ str "exactly as given. Each device also includes key_pvs: a role -> exact PV "
    ++ str "name map for that device type's important setpoint/readback PVs (e.g. a "
    ++ str "'mag' device's key_pvs has "
    ++ str "current_setpoint/current_readback/state_setpoint/state_readback) — for "
    ++ str "'what's the current/status of this power supply' questions, read the PV "
    ++ str "name straight from key_pvs and call get_pv/get_pv_value on it directly; do "
    ++ str "not guess or search for the PV name. key_pvs is empty for device types with "
    ++ str "no registered convention yet. Filter with devgroup/devfunc/zone, or omit "
    ++ str "them to list everything. If the result has notes, say what they mean for "
    ++ str "the answer (e.g. a workspace that could not be read)."
