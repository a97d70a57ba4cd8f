-- ===== src/Tools.antt =====
-- argus/mcp_server/tools: the tools of every module, and build_registry of
-- argus/mcp_server/server.py. `Services` is what the handlers reach through `AppContext`.
pub mod Schemas
pub mod Arguments
pub mod Pv
pub mod Ops
pub mod Device
pub mod History
pub mod Logs
pub mod Docs
pub mod Knowledge
pub mod Beamline
pub mod SaveRestore
pub mod Registered
pub mod Writing
pub mod Tests
pub mod Restoring
pub mod Previews
use argus_mcp_server.Dict.{Dict}
use argus_mcp_server.Effects.{Effect}
use argus_mcp_server.Errors.{Result}
use argus_mcp_server.History.{Clock, HistoryProviders}
use argus_mcp_server.Inventory.{InventoryListing}
use argus_mcp_server.Prelude.{
  Str, str, List, [], ◌∷◌, Option, none, some, truthy, Bool, false, ◌&&◌, if◌then◌else◌,
}
use argus_mcp_server.Registry.{ToolDefinition, register_many}
use argus_mcp_server.SaveRestore.Nodes.{SaveRestoreProvider}
use argus_mcp_server.Tools.Beamline
use argus_mcp_server.Tools.Beamline.{ListInventory}
use argus_mcp_server.Tools.Device
use argus_mcp_server.Tools.Device.{DeviceServices}
use argus_mcp_server.Tools.Docs
use argus_mcp_server.Tools.Docs.{Hub}
use argus_mcp_server.Tools.History
use argus_mcp_server.Tools.Knowledge
use argus_mcp_server.Tools.Knowledge.{KnowledgeCalls}
use argus_mcp_server.Tools.Logs
use argus_mcp_server.Tools.Ops
use argus_mcp_server.Tools.Ops.{OpsServices}
use argus_mcp_server.Tools.Pv
use argus_mcp_server.Tools.Pv.{PvServices}
use argus_mcp_server.Tools.SaveRestore
use argus_mcp_server.Tools.SaveRestore.Fields.{Reads, Texts}
use argus_mcp_server.Values.{Value}

pub record Services (W Time : Type 0) : Type 0 where
  pub pv : PvServices W
  pub ops : OpsServices W
  pub device : DeviceServices W
  pub history : HistoryProviders W Time
  pub clock : Clock Time
  pub fromisoformat : Str → Option Time
  pub minutes_before : Value → Result Time
  pub search_documents : Str → Value → Effect W (List (Dict Value))
  pub knowledge_hub : Option (Hub W)
  pub knowledge : KnowledgeCalls W
  pub list_inventory : ListInventory W
  pub saverestore : SaveRestoreProvider W
  pub reads : Reads W
  pub inventory : Option (Effect W InventoryListing)
  pub texts : Texts

-- What build_registry reads of the settings.
pub record ToolSettings : Type 0 where
  pub inventory_backend : Str
  pub hub_url : Option Str
  pub hub_token : Option Str

abbrev pub source_of : Option ToolSettings → Str
source_of none = str "yaml"
source_of (some settings) = settings.inventory_backend

-- `settings and settings.knowledge_hub.url and settings.knowledge_hub.token`
abbrev pub has_hub : Option ToolSettings → Bool
has_hub none = false
has_hub (some settings) = truthy settings.hub_url && truthy settings.hub_token

module _ {W Time : Type 0} (s : Services W Time) where
  -- The lists of tools behind the inventory's, in the order of their registration.
  unfoldable pub tool_lists : (hub : Bool) → List (List (ToolDefinition W))
  unfolding Pv.tools Device.tools History.tools Ops.tools Logs.tools Docs.tools Knowledge.tools
      SaveRestore.tools Docs.hub_tools
  tool_lists hub =
      Pv.tools s.pv s.texts.repr
      ∷ Device.tools s.device
      ∷ History.tools s.clock s.history s.fromisoformat s.texts.repr
      ∷ Ops.tools s.ops s.texts.repr
      ∷ Logs.tools s.clock s.history s.minutes_before
      ∷ Docs.tools s.search_documents s.texts.repr
      ∷ Knowledge.tools s.knowledge
      ∷ SaveRestore.tools s.saverestore s.reads s.inventory s.texts
      ∷ (if hub then Docs.hub_tools s.knowledge_hub ∷ [] else [])

  -- One registration after the other; each may be a ValueError (`none`).
  unfoldable pub register_lists :
      Option (Dict (ToolDefinition W))
      → List (List (ToolDefinition W))
      → Option (Dict (ToolDefinition W))
  unfolding register_many
  register_lists none lists = none
  register_lists (some tools) [] = some tools
  register_lists (some tools) (given ∷ lists) = register_lists (register_many tools given) lists

  unfoldable pub build_registry : Option ToolSettings → Option (Dict (ToolDefinition W))
  unfolding Beamline.tools register_lists tool_lists
  build_registry settings = elim (Beamline.tools s.list_inventory (source_of settings)) [
    | none ↦ none
    | some given ↦ register_lists (some []) (given ∷ tool_lists (has_hub settings))
  ]
