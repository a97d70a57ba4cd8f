-- ===== src/SaveRestore/Provider.antt =====
-- argus/providers/saverestore/saverestore.py: the client of the save-and-restore service. `http` is the
-- HTTP client; `why` is the text of the exception that a payload of another shape raises, and
-- `local_time` what the server's clock on the wall showed at an instant, both in milliseconds.
pub mod Requests
pub mod Folders
pub mod ReadOnly
pub mod Walks
pub mod Saved
pub mod Records
pub mod Tests
use argus_mcp_server.Dict.{Dict}
use argus_mcp_server.Effects.{Effect, pure, fail, ◌>>=◌}
use argus_mcp_server.Errors.{argus, ErrorClass, Exception, Result, ok, raise}
use argus_mcp_server.Http.{Http, Call, Method}
use argus_mcp_server.Prelude.{
  ℕ, Str, str, ◌++◌, Bool, true, false, List, [], ◌∷◌, Option, none, some, map, or_else, nonempty,
  if◌then◌else◌,
}
use argus_mcp_server.SaveRestore.Decode.{
  to_node, nodes_of, item, to_snapshot_values, comparisons, failures,
}
use argus_mcp_server.SaveRestore.Nodes.{
  SnrNode, SnrSnapshotValue, Comparison, Failure, SaveRestoreProvider,
}
use argus_mcp_server.SaveRestore.Plan.{SnrPvEntry}
use argus_mcp_server.SaveRestore.Provider.Folders.{resolve_folder}
use argus_mcp_server.SaveRestore.Provider.Requests.{
  request, require_configured, shape_error, shaped, lift,
}
use argus_mcp_server.Tools.Arguments.{listed}
use argus_mcp_server.Values.{Value, Items, text, bool, list, dict, cons, nil, end, field}

abbrev pub get_call : Str → Dict Str → Call
get_call path params = record { method = Method.get; path = path; params = params; json = none }

-- An entry of "pvList".
abbrev pv_entry : SnrPvEntry → Value
pv_entry pv =
    let read_only = field (str "readOnly") (bool pv.read_only) end in
    dict (
      field (str "pvName") (text pv.pv_name) (elim pv.readback_pv_name [
        | none ↦ read_only
        | some r ↦ if nonempty r then field (str "readbackPvName") (text r) read_only else read_only
      ]))

unfoldable pub pv_entries : List SnrPvEntry → Items
pv_entries [] = nil
pv_entries (pv ∷ pvs) = cons (pv_entry pv) (pv_entries pvs)

-- A node as it is sent: its name, its type and its description, the name where none is given.
abbrev new_node : (name node_type description : Str) → Value
new_node name node_type description = dict (
    field (str "name") (text name) (
      field (str "nodeType") (text node_type)
        (field (str "description") (text (or_else (some description) name)) end)))

abbrev pub configuration_body : (name : Str) → List SnrPvEntry → (description : Str) → Value
unfolding pv_entries
configuration_body name pv_list description = dict (
    field (str "configurationNode") (new_node name (str "CONFIGURATION") description) (
      field (str "configurationData") (dict (field (str "pvList") (list (pv_entries pv_list)) end))
        end))

abbrev pub snapshot_body : (name : Str) → Items → (comment : Str) → Value
snapshot_body name items comment = dict (
    field (str "snapshotNode") (new_node name (str "SNAPSHOT") comment)
      (field (str "snapshotData") (dict (field (str "snapshotItems") (list items) end)) end))

abbrev pub put_call : Str → Str → Value → Call
put_call path parent body = record {
  method = Method.put;
  path = path;
  params = (str "parentNodeId", parent) ∷ [];
  json = some body;
}

abbrev pub restore_call : Str → Call
restore_call snapshot_id = record {
  method = Method.post;
  path = str "/restore/node";
  params = (str "nodeId", snapshot_id) ∷ [];
  json = none;
}

-- The node under a key of the payload.
abbrev pub node_at : (local_time : ℕ → ℕ) → Str → Value → Option SnrNode
node_at local_time key payload = elim (item payload key) [
  | none ↦ none
  | some v ↦ to_node local_time v
]

module _ {W : Type 0} (http : Http W) (configured : Bool) (why : Value → Str) (local_time : ℕ → ℕ)
    (repr : Str → Str) where
  unfoldable pub search : Str → Effect W (List SnrNode)
  unfolding request nodes_of item
  search query = require_configured configured >>= λ u.
      request http (get_call (str "/search") ((str "query", query) ∷ [])) >>= λ payload.
      shaped why (str "search") payload
        (elim (item payload (str "nodes")) [ none ↦ none | some v ↦ nodes_of local_time v ])

  unfoldable pub get_node : Str → Effect W SnrNode
  unfolding request to_node
  get_node node_id = require_configured configured >>= λ u.
      request http (get_call (str "/node/" ++ node_id) []) >>= λ payload.
      shaped why (str "node") payload (to_node local_time payload)

  unfoldable pub get_children : Str → Effect W (List SnrNode)
  unfolding request nodes_of
  get_children node_id = require_configured configured >>= λ u.
      request http (get_call (str "/node/" ++ node_id ++ str "/children") []) >>= λ payload.
      shaped why (str "children") payload (nodes_of local_time payload)

  unfoldable pub create_configuration :
      (folder_id name : Str) → List SnrPvEntry → (description : Str) → Effect W SnrNode
  unfolding request to_node item pv_entries
  create_configuration folder_id name pv_list description = require_configured configured >>= λ u.
      request http
        (put_call (str "/config") folder_id (configuration_body name pv_list description))
      >>= λ payload.
          shaped why (str "configuration") payload
            (node_at local_time (str "configurationNode") payload)

  -- What follows the reading: the items that were read are saved, and shown.
  abbrev pub save_items :
      (config_id name comment : Str) → Value → Effect W (SnrNode × List SnrSnapshotValue)
  save_items config_id name comment (list items) =
      request http (put_call (str "/snapshot") config_id (snapshot_body name items comment))
      >>= λ payload.
          shaped why (str "snapshot") payload (node_at local_time (str "snapshotNode") payload)
          >>= λ node. lift (to_snapshot_values (listed items)) >>= λ values. pure (node, values)
  save_items config_id name comment _ =
      fail (shape_error (str "Unexpected take-snapshot response shape."))

  unfoldable pub take_snapshot :
      (config_id name comment : Str) → Effect W (SnrNode × List SnrSnapshotValue)
  unfolding request to_node item to_snapshot_values
  take_snapshot config_id name comment = require_configured configured >>= λ u.
      request http (get_call (str "/take-snapshot/" ++ config_id) [])
      >>= save_items config_id name comment

  abbrev pub compared : Value → Effect W (List Comparison)
  compared (list results) = pure (comparisons (listed results))
  compared _ = fail (shape_error (str "Unexpected compare response shape."))

  unfoldable pub compare : Str → Effect W (List Comparison)
  unfolding request comparisons
  compare snapshot_id = require_configured configured >>= λ u.
      request http
        (get_call (str "/compare/" ++ snapshot_id) ((str "skipReadback", str "true") ∷ []))
      >>= compared

  abbrev failed_of : Value → Effect W (List Failure)
  failed_of (list results) = lift (failures (listed results))
  failed_of _ = fail (shape_error (str "Unexpected restore response shape."))

  unfoldable pub restore : Str → Effect W (List Failure)
  unfolding request failures
  restore snapshot_id =
      require_configured configured >>= λ u. request http (restore_call snapshot_id) >>= failed_of

  -- The client as the service uses it.
  unfoldable pub http_provider : SaveRestoreProvider W
  unfolding get_node get_children create_configuration take_snapshot compare restore resolve_folder
  http_provider = record {
    get_node = get_node;
    get_children = get_children;
    resolve_folder = resolve_folder configured repr get_node get_children;
    create_configuration = create_configuration;
    take_snapshot = take_snapshot;
    compare = compare;
    restore = restore;
  }
