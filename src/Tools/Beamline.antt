-- ===== src/Tools/Beamline.antt =====
-- argus/mcp_server/tools/beamline_tools.py: the device inventory's tool, for either source.
use argus_mcp_server.Dict.{Dict}
use argus_mcp_server.Effects.{Effect, pure, ◌>>=◌}
use argus_mcp_server.Inventory.{BeamlineDevice, InventoryListing}
use argus_mcp_server.Prelude.{
  Str, str, ◌++◌, List, [], ◌∷◌, Option, none, some, length, map, if◌then◌else◌, ◌==◌, str_eq,
}
use argus_mcp_server.Registry.Response
use argus_mcp_server.Registry.{ToolDefinition}
use argus_mcp_server.Tools.Arguments.{arg, arg_or, as_list, text_list, optional, reading}
use argus_mcp_server.Tools.Knowledge.{optional_text}
use argus_mcp_server.Tools.Schemas.Beamline.{
  list_devices_schema, hub_list_devices_schema, yaml_description, hub_description,
}
use argus_mcp_server.Values.{Value, Float, null, float, int, pos, text, dict}

-- `list_inventory` of either service; `workspace` and `repo` are None or texts.
abbrev pub ListInventory : Type 0 → Type 0
ListInventory W =
    (repo : Option Str) (path ref devgroup devfunc zone : Value) (workspace : Option Str)
    → Effect W InventoryListing

abbrev optional_float : Option Float → Value
optional_float none = null
optional_float (some x) = float x

-- Absent where it is None.
abbrev present : Str → Option Str → Dict Value
present key none = []
present key (some s) = (key, text s) ∷ []

unfoldable pub device_dict : BeamlineDevice → Dict Value
device_dict d =
    (str "name", text d.name)
      ∷ (str "ioc_name", text d.ioc_name)
      ∷ (str "iocprefix", optional d.iocprefix)
      ∷ (str "devgroup", optional d.devgroup)
      ∷ (str "devtype", optional d.devtype)
      ∷ (str "devfunc", optional d.devfunc)
      ∷ (str "zones", text_list d.zones)
      ∷ (str "geo", optional_float d.geo)
      ∷ (str "asset", optional d.asset)
      ∷ (str "opi", optional d.opi)
      ∷ (str "template", optional d.template)
      ∷ (str "key_pvs", dict (Response.to_fields (map (λ e. (e.0, text e.1)) d.key_pvs)))
      ∷ present (str "workspace") d.workspace
    ++ present (str "link") d.link

abbrev notes_entry : List Str → Dict Value
notes_entry [] = []
notes_entry (n ∷ ns) = (str "notes", text_list (n ∷ ns)) ∷ []

unfoldable pub listing_dict : InventoryListing → Dict Value
unfolding device_dict
listing_dict listing =
    (str "source", text listing.source)
    ∷ (str "device_count", int (pos (length listing.devices)))
    ∷ (str "devices", as_list (map device_dict listing.devices))
    ∷ notes_entry listing.notes

module _ {W : Type 0} (list_inventory : ListInventory W) where
  unfoldable pub list_beamline_devices : Dict Value → Effect W (Dict Value)
  unfolding arg_or listing_dict
  list_beamline_devices arguments =
      optional_text (str "repo must be a string.") (arg arguments (str "repo")) >>= λ repo.
      optional_text (str "workspace must be a string.") (arg arguments (str "workspace"))
      >>= λ workspace.
          list_inventory repo (arg_or (text (str "deploy/values.yaml")) arguments (str "path"))
            (arg_or (text (str "HEAD")) arguments (str "ref")) (arg arguments (str "devgroup"))
            (arg arguments (str "devfunc")) (arg arguments (str "zone")) workspace
          >>= λ listing. pure (listing_dict listing)

  -- An unknown source is a ValueError (`none`).
  unfoldable pub tools : (source : Str) → Option (List (ToolDefinition W))
  unfolding list_beamline_devices
  tools source =
      if source == str "knowledge_hub"
      then some (
          reading (str "list_beamline_devices") hub_description hub_list_devices_schema
            list_beamline_devices
          ∷ [])
      else (if source == str "yaml"
          then some (
              reading (str "list_beamline_devices") yaml_description list_devices_schema
                list_beamline_devices
              ∷ [])
          else none)
