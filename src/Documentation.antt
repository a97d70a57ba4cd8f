-- ===== src/Documentation.antt =====
-- argus/services/documentation_service.py: the search whose query names the device.
use argus_mcp_server.Dict.{Dict}
use argus_mcp_server.Effects.{Effect}
use argus_mcp_server.Prelude.{Str, str, ◌++◌, List, if◌then◌else◌}
use argus_mcp_server.Tools.Arguments.{str_of}
use argus_mcp_server.Values.{Value, truth}

module _ {W : Type 0} (search : Str → (top_k : Value) → Effect W (List (Dict Value))) where
  -- `search` is the documentation provider's; a device that is not given is None.
  unfoldable pub search_documentation :
      (repr : Value → Str) (query : Str) (device top_k : Value) → Effect W (List (Dict Value))
  search_documentation repr query device top_k =
      search (if truth device then str_of repr device ++ str " " ++ query else query) top_k
