-- ===== src/Tools/SaveRestore.antt =====
-- argus/mcp_server/tools/saverestore_tools.py: finding configurations and snapshots, creating them,
-- and restoring one, over the save-and-restore service. A name, comment or description that is no
-- text is taken as its `str`, and a `pvs` through which Python cannot go raises before the inventory
-- is read; the input schemas admit neither.
pub mod Fields
pub mod Describe
use argus_mcp_server.Dict.{Dict}
use argus_mcp_server.Effects.{Effect, pure, ◌>>=◌}
use argus_mcp_server.Errors.{Result, ok, raise}
use argus_mcp_server.Inventory.{InventoryListing}
use argus_mcp_server.Prelude.{
  ℕ, Str, str, ◌++◌, Bool, true, false, List, [], ◌∷◌, Option, none, some, length, map,
  if◌then◌else◌, ◌==◌, str_eq,
}
use argus_mcp_server.Registry.{ToolDefinition}
use argus_mcp_server.SaveRestore.{create_configuration, take_snapshot, restore}
use argus_mcp_server.SaveRestore.Nodes.{SnrNode, SaveRestoreProvider, list_snapshots}
use argus_mcp_server.Tools.Arguments.{
  arg, arg_or, require_text, lift, as_list, str_or_empty, reading, writing,
}
use argus_mcp_server.Tools.Schemas.SaveRestore.{
  search_snapshots_schema, get_snapshot_schema, create_configuration_schema, take_snapshot_schema,
  restore_schema, search_snapshots_description, get_snapshot_description,
  create_saverestore_configuration_description, take_saverestore_snapshot_description,
  restore_saverestore_snapshot_description,
}
use argus_mcp_server.Tools.SaveRestore.Describe.{
  describe_create_configuration, describe_take_snapshot, describe_restore,
}
use argus_mcp_server.Tools.SaveRestore.Fields.{
  Reads, Texts, node_dict, node_value, snapshot_entry, created_dict, taken_dict, restored_dict,
  string_list, pv_items, is_not_false,
}
use argus_mcp_server.Values.{Value, bool, text, list, dict, int, pos, truth, end, field}

abbrev ask_about_logbook : Value
ask_about_logbook = text (
    str
      "Tell the user what was done, then ASK whether to record it in the logbook. Only if they say yes, call "
    ++ str
        "create_logbook_entry with logbook_suggestion's title and text (adjusted as they wish) in one of this "
    ++ str "facility's logbooks; it will ask for its own confirmation.")

-- `{**result, "next_step": _ASK_ABOUT_LOGBOOK}`
abbrev pub with_next_step : Dict Value → Dict Value
with_next_step result = result ++ (str "next_step", ask_about_logbook) ∷ []

module _ {W : Type 0} (provider : SaveRestoreProvider W) (reads : Reads W)
    (inventory : Option (Effect W InventoryListing)) (t : Texts) where
  abbrev snapshots_of : SnrNode × Str × List SnrNode → Dict Value
  snapshots_of (config, path, snapshots) =
      (
        str "configuration",
        dict (field (str "unique_id") (text config.unique_id) (field (str "path") (text path) end)),
      )
      ∷ (str "snapshot_count", int (pos (length snapshots)))
      ∷ (str "snapshots", as_list (map (snapshot_entry t) snapshots))
      ∷ []

  abbrev nodes_dict : List SnrNode → Dict Value
  nodes_dict nodes = (str "nodes", as_list (map (node_dict t) nodes)) ∷ []

  unfoldable pub search_snapshots : Dict Value → Effect W (Dict Value)
  unfolding arg_or list_snapshots
  search_snapshots arguments =
      if truth (arg arguments (str "configuration"))
      then (list_snapshots provider t.quoted
            (str_or_empty t.repr (arg arguments (str "configuration")))
          >>= λ found. pure (snapshots_of found))
      else (if truth (arg arguments (str "node_id"))
          then (provider.get_children (str_or_empty t.repr (arg arguments (str "node_id")))
              >>= λ nodes. pure (nodes_dict nodes))
          else (require_text
                (str
                    "Provide query (to search), node_id (to list a folder's children) or configuration "
                  ++ str "(to list its snapshots).")
                (arg arguments (str "query"))
              >>= reads.search
              >>= λ nodes. pure (nodes_dict nodes)))

  abbrev detail : Str → SnrNode → Effect W (Dict Value)
  detail node_id node =
      if node.node_type == str "SNAPSHOT"
      then (reads.get_snapshot node_id >>= λ snapshot.
          pure ((str "node", node_value t node) ∷ (str "snapshot", snapshot) ∷ []))
      else (if node.node_type == str "CONFIGURATION"
          then (reads.get_configuration node_id >>= λ config.
              pure ((str "node", node_value t node) ∷ (str "configuration", config) ∷ []))
          else pure (
              (str "node", node_value t node)
              ∷ (
                str "message",
                text (
                    str
                      "This is a FOLDER node — use search_snapshots with node_id set to this id to list its children."),
              )
              ∷ []))

  unfoldable pub get_snapshot : Dict Value → Effect W (Dict Value)
  unfolding arg_or
  get_snapshot arguments =
      require_text (str "node_id cannot be empty and must be a string.")
        (arg arguments (str "node_id"))
      >>= λ node_id. provider.get_node node_id >>= detail node_id

  unfoldable pub create_saverestore_configuration : Dict Value → Effect W (Dict Value)
  unfolding arg_or create_configuration string_list pv_items
  create_saverestore_configuration arguments =
      require_text (str "name is required.") (arg arguments (str "name")) >>= λ name.
      require_text (str "folder is required (an existing folder path or id).")
        (arg arguments (str "folder"))
      >>= λ folder.
          lift (string_list (arg arguments (str "devices")) (str "devices")) >>= λ devices.
          lift (pv_items t.repr (arg arguments (str "pvs"))) >>= λ pvs.
          create_configuration provider t.quoted inventory name folder devices
            (is_not_false (arg_or (bool true) arguments (str "include_readbacks"))) pvs
            (str_or_empty t.repr (arg arguments (str "description")))
          >>= λ result. pure (with_next_step (created_dict result))

  unfoldable pub take_saverestore_snapshot : Dict Value → Effect W (Dict Value)
  unfolding arg_or take_snapshot
  take_saverestore_snapshot arguments =
      require_text (str "configuration is required (a configuration path or id).")
        (arg arguments (str "configuration"))
      >>= λ configuration.
          take_snapshot provider t.quoted t.now configuration
            (str_or_empty t.repr (arg arguments (str "name")))
            (str_or_empty t.repr (arg arguments (str "comment")))
          >>= λ result. pure (with_next_step (taken_dict result))

  unfoldable pub restore_saverestore_snapshot : Dict Value → Effect W (Dict Value)
  unfolding arg_or restore
  restore_saverestore_snapshot arguments =
      require_text (str "snapshot is required (an id, or a name / 'latest' with configuration).")
        (arg arguments (str "snapshot"))
      >>= λ snapshot.
          restore provider t.quoted t.shown snapshot
            (str_or_empty t.repr (arg arguments (str "configuration")))
          >>= λ result. pure (with_next_step (restored_dict result))

  unfoldable pub tools : List (ToolDefinition W)
  unfolding search_snapshots get_snapshot create_saverestore_configuration take_saverestore_snapshot
      restore_saverestore_snapshot
  tools =
      reading (str "search_snapshots") search_snapshots_description search_snapshots_schema
        search_snapshots
      ∷ reading (str "get_snapshot") get_snapshot_description get_snapshot_schema get_snapshot
      ∷ writing (str "create_saverestore_configuration")
          create_saverestore_configuration_description create_configuration_schema
          create_saverestore_configuration (describe_create_configuration provider inventory t)
      ∷ writing (str "take_saverestore_snapshot") take_saverestore_snapshot_description
          take_snapshot_schema take_saverestore_snapshot (describe_take_snapshot provider t)
      ∷ record (writing (str "restore_saverestore_snapshot")
          restore_saverestore_snapshot_description restore_schema restore_saverestore_snapshot
          (describe_restore provider t)) { always_confirm = true }
      ∷ []
