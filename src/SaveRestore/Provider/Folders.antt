-- ===== src/SaveRestore/Provider/Folders.antt =====
-- `resolve_folder` of argus/providers/saverestore/saverestore.py: from the root, one folder after the
-- other.
use argus_mcp_server.Effects.{Effect, pure, fail, ◌>>=◌}
use argus_mcp_server.Prelude.{
  Str, str, ◌++◌, Bool, ◌&&◌, ◌||◌, List, [], ◌∷◌, none, some, keep, map, join, sorted, split,
  strip, strip_char, nonempty, or_else, if◌then◌else◌, ◌==◌, str_eq, length, nat_eq, any, not,
  count_char,
}
use argus_mcp_server.SaveRestore.Nodes.{SnrNode, find_named}
use argus_mcp_server.SaveRestore.Provider.Requests.{require_configured, shape_error}

-- `Node.ROOT_FOLDER_UNIQUE_ID`
abbrev pub root_folder_id : Str
root_folder_id = str "44bef5de-e8e6-4014-af37-b8f6c8a939a2"

abbrev pub is_folder : SnrNode → Bool
is_folder n = n.node_type == str "FOLDER"

-- `"/" + "/".join(walked)`
abbrev pub path_of : List Str → Str
path_of walked = str "/" ++ join (str "/") walked

-- `"/" + "/".join(walked) if walked else "the root"`
abbrev here : List Str → Str
here [] = str "the root"
here (name ∷ names) = path_of (name ∷ names)

-- `[p for p in text.strip("/").split("/") if p]`
abbrev pub parts_of : Str → List Str
parts_of s = keep nonempty (split 47 (strip_char 47 s))

module _ {W : Type 0} (repr : Str → Str) (get_children : Str → Effect W (List SnrNode)) where
  abbrev pub no_folder : Str → List Str → List SnrNode → Effect W (Str × List Str)
  no_folder part walked folders = fail (
      shape_error (
        str "No folder "
        ++ repr part
        ++ str " in "
        ++ here walked
        ++ str ". Folders there: "
        ++ or_else (some (join (str ", ") (sorted (map (λ (c : SnrNode). c.name) folders))))
            (str "none")
        ++ str "."))

  -- The loop: the id of the last folder, and the names of all.
  unfoldable pub walk : List Str → (parent : Str) (walked : List Str) → Effect W (Str × List Str)
  unfolding find_named
  walk [] parent walked = pure (parent, walked)
  walk (part ∷ parts) parent walked = get_children parent >>= λ children.
      elim (find_named part (keep is_folder children)) [
        | none ↦ no_folder part walked (keep is_folder children)
        | some found ↦ walk parts found.unique_id (walked ++ found.name ∷ [])
      ]

module _ {W : Type 0} (configured : Bool) (repr : Str → Str) (get_node : Str → Effect W SnrNode)
    (get_children : Str → Effect W (List SnrNode)) where
  -- `len(text) == 36 and text.count("-") == 4`, and no "/" but at the ends.
  abbrev pub is_node_id : Str → Bool
  is_node_id s =
      not (any (λ c. c == 47) (strip_char 47 s)) && length s == 36 && count_char 45 s == 4

  abbrev pub folder_of : Str → SnrNode → Effect W (Str × Str)
  folder_of s node =
      if is_folder node
      then pure (node.unique_id, node.name)
      else fail (shape_error (s ++ str " is a " ++ node.node_type ++ str ", not a folder."))

  abbrev pub folder_at : Str → Effect W (Str × Str)
  folder_at s =
      if s == [] || s == str "/"
      then fail (shape_error (str "A folder is required (configurations can't live in the root)."))
      else (if is_node_id s
          then get_node s >>= folder_of s
          else (walk repr get_children (parts_of s) root_folder_id [] >>= λ found.
              pure (found.0, path_of found.1)))

  unfoldable pub resolve_folder : (folder : Str) → Effect W (Str × Str)
  unfolding walk
  resolve_folder folder = require_configured configured >>= λ u. folder_at (strip folder)
