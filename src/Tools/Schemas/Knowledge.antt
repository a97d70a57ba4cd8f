-- ===== src/Tools/Schemas/Knowledge.antt =====
-- argus/mcp_server/tools/knowledge_tools.py: the descriptions and the input schemas of its tools.
use argus_mcp_server.Dict.{Dict}
use argus_mcp_server.Prelude.{Str, str, ◌++◌, [], ◌∷◌}
use argus_mcp_server.Tools.Schemas.Build.{described, strings, entries, texts, object_with, required}
use argus_mcp_server.Values.{Value, text}

abbrev pub search_kb_schema : Dict Value
search_kb_schema =
    object_with
      ((
        str "query",
        described (str "string") (str "Free-text search query, e.g. 'BTF2 magnet interlock'."),
      )
        ∷ (
          str "repos",
          strings (
              str "Repos to search. A git URL, e.g. "
              ++ str "https://baltig.infn.it/lnf-da-control/epik8s-btf.git (a beamline's own "
              ++ str "deploy repo) or https://github.com/infn-epics/ioc-chart.git (the shared IOC "
              ++ str "template repo). Defaults to the configured repo list if omitted."),
        )
        ∷ (
          str "state",
          entries (
              (str "type", text (str "string"))
              ∷ (str "enum", texts (str "all" ∷ str "open" ∷ str "closed" ∷ []))
              ∷ (str "description", text (str "Filter by issue state. Defaults to all."))
              ∷ []),
        )
        ∷ [])
      (required (str "query" ∷ []))

abbrev pub config_history_schema : Dict Value
config_history_schema =
    object_with
      ((
        str "repo",
        described (str "string") (
            str "Optional - defaults to this beamline's own configured repo "
            ++ str "(GIT_DEFAULT_REPOS) when omitted, which is correct for almost every call. "
            ++ str "Only pass this to look at a *different* repo instead. A git URL, e.g. "
            ++ str "https://baltig.infn.it/lnf-da-control/epik8s-btf.git (a beamline's own "
            ++ str "deploy repo) or https://github.com/infn-epics/ioc-chart.git (the shared IOC "
            ++ str "template repo)."),
      )
        ∷ (
          str "path",
          described (str "string") (
              str "File path within the repo. Optional - defaults to 'deploy/values.yaml' "
              ++ str "(this beamline's own deployment config) when omitted."),
        )
        ∷ (
          str "limit",
          described (str "integer") (str "Maximum number of commits to return. Defaults to 20."),
        )
        ∷ (
          str "commit_sha",
          described (str "string")
              (str "If given, return this commit's diff instead of the file's commit history."),
        )
        ∷ (
          str "ref",
          described (str "string") (
              str "If given (e.g. 'HEAD' for the current version, or a branch/tag/commit sha), "
              ++ str "return the file's full content at that ref instead of its commit history. "
              ++ str "'HEAD' resolves to whatever branch this beamline is actually deployed from "
              ++ str "(GIT_DEFAULT_REF) — not necessarily the repo's default branch, some "
              ++ str "beamlines deploy from a non-default one — so it's always safe to pass "
              ++ str "literally 'HEAD' for 'the current deployed config', never guess a branch "
              ++ str "name. Use this to read the current beamline inventory (IOCs, devices, "
              ++ str "zones, geo, devgroup/devtype, connection IPs) straight out of a config file "
              ++ str "like deploy/values.yaml."),
        )
        ∷ [])
      (required [])

abbrev pub search_knowledge_base_description : Str
search_knowledge_base_description =
    str "Search issues/tickets across configured repos for past problems and how "
    ++ str "they were resolved."

abbrev pub get_config_history_description : Str
get_config_history_description =
    str "Read a config file from a beamline's deployment repo (pass ref='HEAD' for "
    ++ str "its current content), its git commit history, or a specific commit's diff — "
    ++ str "the source of truth for static beamline metadata: IOCs, devices, zones, "
    ++ str "connection details (IPs, ports, servers), geo coordinates, "
    ++ str "asset/documentation links, and other per-device/per-IOC configuration. Both "
    ++ str "repo and path are optional and default to THIS beamline's own deploy repo "
    ++ str "and 'deploy/values.yaml' — call with no arguments (or just ref='HEAD') for "
    ++ str "'read this beamline's own current config', which is almost always what's "
    ++ str "wanted; only pass repo explicitly to look at a *different* repo (e.g. the "
    ++ str "shared ioc-chart template repo). For narrative, non-structured context "
    ++ str "deploy/values.yaml can't carry — what this beamline is for, PV/terminology "
    ++ str "conventions, who to contact, common operational procedures, safety notes — "
    ++ str "pass path='ARGUS.md' with ref='HEAD' instead, if that beamline's repo has "
    ++ str "one; it won't exist for every beamline. For 'what "
    ++ str "magnets/quadrupoles/vacuum devices/etc. exist on this beamline' "
    ++ str "specifically, use list_beamline_devices instead — it parses and classifies "
    ++ str "this same file for you (including iocDefaults template inheritance, which a "
    ++ str "raw read of this file will miss). For live PV values/status of a device you "
    ++ str "already know the name of, use get_device/device_status/diagnose_device "
    ++ str "instead; ChannelFinder only resolves a known device name to its PVs, it "
    ++ str "doesn't enumerate devices by category or carry this static metadata."
