-- ===== src/Tools/Schemas/SaveRestore.antt =====
-- argus/mcp_server/tools/saverestore_tools.py: the descriptions and the input schemas of its tools.
use argus_mcp_server.Dict.{Dict}
use argus_mcp_server.Prelude.{Str, str, ◌++◌, [], ◌∷◌}
use argus_mcp_server.Tools.Schemas.Build.{
  described, typed, strings, entries, texts, object_with, required,
}
use argus_mcp_server.Values.{Value, text, list, nil, cons}

abbrev pub search_snapshots_schema : Dict Value
search_snapshots_schema =
    object_with
      ((
        str "query",
        described (str "string") (
            str "Free-text search across all folders/configurations/snapshots, e.g. a "
            ++ str "configuration name like 'MAGNET_SP'. Omit and pass node_id instead to list "
            ++ str "a specific folder's children."),
      )
        ∷ (
          str "node_id",
          described (str "string") (
              str "A folder node's uniqueId (from a previous search_snapshots call) to list "
              ++ str "its direct children instead of searching."),
        )
        ∷ (
          str "configuration",
          described (str "string") (
              str "A configuration's path (e.g. 'BTF_CONF/Quadrupoles') or uniqueId: list its "
              ++ str "snapshots, newest first, with when, who and the comment - 'which snapshots "
              ++ str "are there of X'."),
        )
        ∷ [])
      []

abbrev pub get_snapshot_schema : Dict Value
get_snapshot_schema =
    object_with
      ((
        str "node_id",
        described (str "string")
            (str "A CONFIGURATION or SNAPSHOT node's uniqueId, from search_snapshots."),
      )
        ∷ [])
      (required (str "node_id" ∷ []))

abbrev pub create_configuration_schema : Dict Value
create_configuration_schema =
    object_with
      ((
        str "name",
        described (str "string") (str "Name of the new configuration (unique in its folder)."),
      )
        ∷ (
          str "folder",
          described (str "string") (
              str "Existing save-and-restore folder to create it in: a path from the root such "
              ++ str "as 'BTF_CONF' or 'BTF_CONF/Magnets', or a folder's uniqueId. Folders are "
              ++ str "not created; a wrong one is answered with the folders that exist there."),
        )
        ∷ (
          str "devices",
          strings (
              str "Device names from list_beamline_devices. Each contributes its setpoint PVs "
              ++ str "(e.g. a magnet's CURRENT_SP and STATE_SP), paired with their readbacks if "
              ++ str "include_readbacks."),
        )
        ∷ (
          str "include_readbacks",
          described (str "boolean") (
              str "Also record each setpoint's readback PV (e.g. CURRENT_RB), saved alongside "
              ++ str "it in snapshots for comparison; never restored. Default true."),
        )
        ∷ (
          str "pvs",
          entries (
              (str "type", text (str "array"))
              ∷ (
                str "items",
                entries (
                    (
                      str "anyOf",
                      list (
                          cons (typed (str "string")) (
                            cons
                              (entries (
                                (str "type", text (str "object"))
                                ∷ (
                                  str "properties",
                                  entries (
                                      (str "setpoint", typed (str "string"))
                                      ∷ (str "readback", typed (str "string"))
                                      ∷ []),
                                )
                                ∷ (str "required", texts (str "setpoint" ∷ []))
                                ∷ []))
                              nil)),
                    )
                    ∷ []),
              )
              ∷ (
                str "description",
                text (
                    str "Extra PVs given explicitly - for devices without a setpoint convention "
                    ++ str "(motors, vacuum): a PV name, or {setpoint, readback}."),
              )
              ∷ []),
        )
        ∷ (
          str "description",
          described (str "string") (str "Optional description of the configuration."),
        )
        ∷ [])
      (required (str "name" ∷ str "folder" ∷ []))

abbrev pub take_snapshot_schema : Dict Value
take_snapshot_schema =
    object_with
      ((
        str "configuration",
        described (str "string") (
            str "The existing configuration to snapshot: its path such as "
            ++ str "'BTF_CONF/Quadrupoles', or its uniqueId (search_snapshots finds both). A "
            ++ str "snapshot always belongs to a configuration."),
      )
        ∷ (
          str "name",
          described (str "string")
              (str "Snapshot name. Default: the configuration name and the time."),
        )
        ∷ (
          str "comment",
          described (str "string")
              (str "Why the snapshot was taken (e.g. 'before the energy change')."),
        )
        ∷ [])
      (required (str "configuration" ∷ []))

abbrev pub restore_schema : Dict Value
restore_schema =
    object_with
      ((
        str "snapshot",
        described (str "string") (
            str "The snapshot to restore: its uniqueId, or - together with configuration - "
            ++ str "its name, or 'latest' for the configuration's newest snapshot."),
      )
        ∷ (
          str "configuration",
          described (str "string") (
              str "The snapshot's configuration (path such as 'BTF_CONF/Quadrupoles', or "
              ++ str "uniqueId), when snapshot is a name or 'latest'."),
        )
        ∷ [])
      (required (str "snapshot" ∷ []))

abbrev pub search_snapshots_description : Str
search_snapshots_description =
    str "Search or browse Phoebus save-and-restore: pass query for free-text search "
    ++ str "across all folders/configurations/snapshots, or node_id (a folder's "
    ++ str "uniqueId from a previous result) to list that folder's direct children. A "
    ++ str "CONFIGURATION defines which PVs a snapshot covers; a SNAPSHOT is a saved "
    ++ str "set of PV values at a point in time. Pass configuration to list a "
    ++ str "configuration's snapshots, newest first. Use the returned uniqueId with "
    ++ str "get_snapshot to read a configuration's PV list or a snapshot's saved "
    ++ str "values. Read-only; restoring is restore_saverestore_snapshot."

abbrev pub get_snapshot_description : Str
get_snapshot_description =
    str "Get the detail of a save-and-restore node by its uniqueId (from "
    ++ str "search_snapshots): a CONFIGURATION's PV list (which PVs/readback PVs it "
    ++ str "covers, not their values), or a SNAPSHOT's saved PV values and readback "
    ++ str "values as of when it was taken."

abbrev pub create_saverestore_configuration_description : Str
create_saverestore_configuration_description =
    str "WRITES: creates a save-and-restore configuration (the list of PVs a "
    ++ str "snapshot will save), under the user's own name, in an existing folder. Give "
    ++ str "devices from list_beamline_devices: each contributes its setpoint PVs, with "
    ++ str "their readbacks if include_readbacks (default true). PVs of devices without "
    ++ str "a setpoint convention can be given explicitly with pvs. Use only when the "
    ++ str "user asks to create a configuration. To save current values, take a "
    ++ str "snapshot of it afterwards with take_saverestore_snapshot."

abbrev pub take_saverestore_snapshot_description : Str
take_saverestore_snapshot_description =
    str "WRITES: takes a snapshot of an EXISTING save-and-restore configuration, "
    ++ str "under the user's own name: the save-and-restore service reads the "
    ++ str "configuration's PVs now and stores their values. Nothing on the machine "
    ++ str "changes. A snapshot always belongs to a configuration - to snapshot devices "
    ++ str "with no configuration yet, create one first with "
    ++ str "create_saverestore_configuration. Never restores anything."

abbrev pub restore_saverestore_snapshot_description : Str
restore_saverestore_snapshot_description =
    str "WRITES TO THE LIVE MACHINE: restores a save-and-restore snapshot - the "
    ++ str "service writes each saved setpoint back (never readbacks or read-only PVs), "
    ++ str "under the user's own name. Use it ONLY when the user explicitly asks to "
    ++ str "restore a specific snapshot (or 'the latest' of a named configuration); "
    ++ str "never on your own initiative, never to 'check' anything. Always two steps "
    ++ str "for every client: the first call changes nothing and returns, PV by PV, "
    ++ str "what would change from the live value to the saved one - show that to the "
    ++ str "user, and restore only after they explicitly confirm it. Afterwards report "
    ++ str "any PVs that failed. To find snapshots, use search_snapshots with "
    ++ str "configuration."
