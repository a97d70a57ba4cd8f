-- ===== src/Tools/Schemas/Hub.antt =====
-- argus/mcp_server/tools/hub_tools.py: the descriptions and the input schemas of its tools.
use argus_mcp_server.Dict.{Dict}
use argus_mcp_server.Prelude.{Str, str, ◌++◌, []}
use argus_mcp_server.Tools.Schemas.Build.{object_with, required}
use argus_mcp_server.Values.{Value}

abbrev pub list_knowledge_hub_workspaces_description : Str
list_knowledge_hub_workspaces_description =
    str "The ARGUS Knowledge Hub workspaces this server reads devices, documentation "
    ++ str "and logbook entries from (id, name, whether it is a shared catalogue). "
    ++ str "Searches already cover all of them; call this only to say where an answer "
    ++ str "came from or to narrow list_beamline_devices to one workspace."

abbrev pub list_knowledge_hub_workspaces_schema : Dict Value
list_knowledge_hub_workspaces_schema = object_with [] (required [])
