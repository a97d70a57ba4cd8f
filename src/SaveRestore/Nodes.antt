-- ===== src/SaveRestore/Nodes.antt =====
-- Finding configurations and snapshots: the nodes of argus/providers/saverestore/models.py, and
-- resolve_configuration, list_snapshots and resolve_snapshot of
-- argus/services/saverestore_service.py. A node's `created` is
-- what the server's clock on the wall showed, as milliseconds: a local time without its zone, that the
-- service takes for UTC, so that the order of two times is that of the clock and not of the instants.
use argus_mcp_server.Effects.{Effect, pure, fail, ◌>>=◌}
use argus_mcp_server.Errors.{argus, ErrorClass}
use argus_mcp_server.Prelude.{
  ℕ, Str, str, ◌++◌, Bool, not, ◌&&◌, ◌||◌, List, [], ◌∷◌, Option, none, some, length, take, keep,
  map, find, if◌then◌else◌, ◌==◌, str_eq, nat_eq, any, join, lower, strip, strip_char, rpartition,
  count_char, sorted, or_else, nonempty, leb,
}
use argus_mcp_server.Values.{Value}
use argus_mcp_server.SaveRestore.Plan.{SnrPvEntry}

pub record SnrNode : Type 0 where
  pub unique_id : Str
  pub name : Str
  pub node_type : Str
  pub description : Option Str
  pub created : Option ℕ
  pub last_modified : Option ℕ
  pub user_name : Option Str

pub record SnrSnapshotValue : Type 0 where
  pub pv_name : Str
  pub value : Value
  pub readback_value : Value
  pub units : Option Str
  pub severity : Option Str

-- An entry of `compare` and of `restore`.
pub record Comparison : Type 0 where
  pub pv_name : Str
  pub equal : Bool
  pub saved : Value
  pub live : Value
  pub delta : Option Str

pub record Failure : Type 0 where
  pub pv_name : Str
  pub error : Str

-- The calls that the service makes of argus/providers/saverestore/saverestore.py.
pub record SaveRestoreProvider (W : Type 0) : Type 0 where
  pub get_node : Str → Effect W SnrNode
  pub get_children : Str → Effect W (List SnrNode)
  pub resolve_folder : Str → Effect W (Str × Str)
  pub create_configuration : Str → Str → List SnrPvEntry → Str → Effect W SnrNode
  pub take_snapshot : Str → Str → Str → Effect W (SnrNode × List SnrSnapshotValue)
  pub compare : Str → Effect W (List Comparison)
  pub restore : Str → Effect W (List Failure)

abbrev pub is_uuid : Str → Bool
is_uuid s = length s == 36 && count_char 45 s == 4 && not (any (λ c. c == 47) s)

abbrev pub is_configuration : SnrNode → Bool
is_configuration n = n.node_type == str "CONFIGURATION"

abbrev pub is_snapshot : SnrNode → Bool
is_snapshot n = n.node_type == str "SNAPSHOT" || n.node_type == str "COMPOSITE_SNAPSHOT"

-- The first node of the name, or else the first whose name differs in case only.
unfoldable pub find_named : Str → List SnrNode → Option SnrNode
find_named name nodes = elim (find (λ (n : SnrNode). n.name == name) nodes) [
  | some n ↦ some n
  | none ↦ find (λ (n : SnrNode). lower n.name == lower name) nodes
]

-- `_aware(n.created) or epoch`
abbrev pub created_key : SnrNode → ℕ
created_key n = elim n.created [ none ↦ 0 | some t ↦ t ]

-- The stable sort by `created_key`, latest first.
unfoldable pub insert_newest : SnrNode → List SnrNode → List SnrNode
insert_newest n [] = n ∷ []
insert_newest n (m ∷ ms) =
    let rest = insert_newest n ms in
    if leb (created_key m) (created_key n) then n ∷ m ∷ ms else m ∷ rest

unfoldable pub sort_newest : List SnrNode → List SnrNode
unfolding insert_newest
sort_newest [] = []
sort_newest (n ∷ ns) = insert_newest n (sort_newest ns)

abbrev pub is_latest : Str → Bool
is_latest s = any (λ t. t == lower s) ([] ∷ str "latest" ∷ str "last" ∷ str "newest" ∷ [])

module _ {W : Type 0} (provider : SaveRestoreProvider W) (repr : Str → Str) where
  -- A node that was read by its id has to be of the kind that is wanted.
  abbrev pub checked : (SnrNode → Bool) → (wanted id : Str) → SnrNode → Effect W (SnrNode × Str)
  checked test wanted id node =
      if test node
      then pure (node, node.name)
      else fail (
          argus ErrorClass.saverestore_query_error
            (id ++ str " is a " ++ node.node_type ++ str ", not a " ++ wanted ++ str "."))

  abbrev pub pick_configuration :
      (name : Str) → (Str × Str) → List SnrNode → Effect W (SnrNode × Str)
  pick_configuration name (folder_id, folder_path) children =
      let configs = keep is_configuration children in
      elim (find_named name configs) [
        | some node ↦ pure (node, folder_path ++ str "/" ++ node.name)
        | none ↦ fail (
            argus ErrorClass.saverestore_query_error (
              str "No configuration "
              ++ repr name
              ++ str " in "
              ++ folder_path
              ++ str ". Configurations there: "
              ++ or_else (some (join (str ", ") (sorted (map (λ (c : SnrNode). c.name) configs))))
                  (str "none")
              ++ str "."))
      ]

  abbrev pub resolve_path : Str × Str → Effect W (SnrNode × Str)
  resolve_path (folder, name) =
      if nonempty folder && nonempty name
      then (provider.resolve_folder folder >>= λ place.
          provider.get_children place.0 >>= pick_configuration name place)
      else fail (
          argus ErrorClass.validation_error
            (str "configuration is a node id or a path such as BTF_CONF/Quadrupoles."))

  unfoldable pub resolve_configuration : Str → Effect W (SnrNode × Str)
  unfolding find_named
  resolve_configuration configuration =
      let s = strip configuration in
      if is_uuid s
      then provider.get_node s >>= checked is_configuration (str "configuration") s
      else resolve_path (rpartition 47 (strip_char 47 s))

  unfoldable pub list_snapshots : Str → Effect W (SnrNode × Str × List SnrNode)
  unfolding resolve_configuration sort_newest
  list_snapshots configuration = resolve_configuration configuration >>= λ found.
      provider.get_children found.0.unique_id >>= λ children.
      pure (found.0, found.1, sort_newest (keep is_snapshot children))

  abbrev pub label_of : Str → SnrNode → SnrNode × Str
  label_of path node = (node, path ++ str " / " ++ node.name)

  abbrev pub pick_snapshot : Str → SnrNode × Str × List SnrNode → Effect W (SnrNode × Str)
  pick_snapshot s (config, path, []) = fail (
      argus ErrorClass.saverestore_query_error
        (str "The configuration " ++ path ++ str " has no snapshots."))
  pick_snapshot s (config, path, newest ∷ older) =
      if is_latest s then pure (label_of path newest) else (elim (find_named s (newest ∷ older)) [
        | some node ↦ pure (label_of path node)
        | none ↦ fail (
            argus ErrorClass.saverestore_query_error (
              str "No snapshot "
              ++ repr s
              ++ str " of "
              ++ path
              ++ str ". Its snapshots, newest first: "
              ++ join (str ", ") (map (λ (n : SnrNode). n.name) (take 15 (newest ∷ older)))
              ++ str "."))
      ])

  unfoldable pub resolve_snapshot : (snapshot configuration : Str) → Effect W (SnrNode × Str)
  unfolding list_snapshots
  resolve_snapshot snapshot configuration =
      let s = strip snapshot in
      if is_uuid s
      then provider.get_node s >>= checked is_snapshot (str "snapshot") s
      else (if nonempty configuration
          then list_snapshots configuration >>= pick_snapshot s
          else fail (
              argus ErrorClass.validation_error (
                str "Give the snapshot's id, or its configuration (path or id) with the "
                ++ str "snapshot's name or 'latest'.")))
