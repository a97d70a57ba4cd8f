-- ===== src/Tools/Schemas/Pv.antt =====
-- argus/mcp_server/tools/pv_tools.py: the descriptions and the input schemas of its tools.
use argus_mcp_server.Dict.{Dict}
use argus_mcp_server.Prelude.{Str, str, [], ◌∷◌}
use argus_mcp_server.Tools.Schemas.Build.{described, entries, object_with, required}
use argus_mcp_server.Values.{Value, text}

abbrev pub pv_name_schema : Dict Value
pv_name_schema =
    object_with
      ((
        str "pv_name",
        described (str "string") (str "The name of the PV variable provided by the user."),
      )
        ∷ [])
      (required (str "pv_name" ∷ []))

abbrev pub legacy_set_pv_schema : Dict Value
legacy_set_pv_schema =
    object_with
      ((
        str "pv_name",
        described (str "string") (str "The name of the PV variable provided by the user."),
      )
        ∷ (str "pv_value", described (str "string") (str "The new PV value provided by the user."))
        ∷ [])
      (required (str "pv_name" ∷ str "pv_value" ∷ []))

abbrev pub set_pv_schema : Dict Value
set_pv_schema =
    object_with
      ((str "pv_name", described (str "string") (str "The name of the PV to set."))
        ∷ (
          str "value",
          entries ((str "description", text (str "The new value to write to the PV.")) ∷ []),
        )
        ∷ [])
      (required (str "pv_name" ∷ str "value" ∷ []))

abbrev pub get_pv_description : Str
get_pv_description = str "Get the current value of a PV, including timestamp and alarm severity."

abbrev pub set_pv_description : Str
set_pv_description = str "Set the value of a PV."

abbrev pub get_pv_info_description : Str
get_pv_info_description = str "Get information about a specific PV."

abbrev pub get_pv_value_description : Str
get_pv_value_description = str "Get the value of a specific PV."

abbrev pub set_pv_value_description : Str
set_pv_value_description = str "Set the value of a specific PV."
