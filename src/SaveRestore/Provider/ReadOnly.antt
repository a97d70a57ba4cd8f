-- ===== src/SaveRestore/Provider/ReadOnly.antt =====
-- Which operations only read: what holds of the world and is kept by every GET is kept by them.
use argus_mcp_server.Effects.{Effect, after, ◌>>=◌}
use argus_mcp_server.Errors.{Result, ok, raise}
use argus_mcp_server.Http.{Http, Call, Method}
use argus_mcp_server.Prelude.{
  ℕ, Str, str, ◌++◌, Bool, true, false, List, [], ◌∷◌, Option, none, some, ◌≡◌, refl, Bool-cases,
  Option-cases, inl, inr, ◌||◌, ◌&&◌, keep, if◌then◌else◌, ◌==◌, str_eq, strip, nonempty,
  rpartition, strip_char,
}
use argus_mcp_server.SaveRestore.{restore_preview}
use argus_mcp_server.SaveRestore.Nodes.{
  SnrNode, SaveRestoreProvider, find_named, is_uuid, is_configuration, is_snapshot, is_latest,
  checked, pick_configuration, pick_snapshot, resolve_path, resolve_configuration, list_snapshots,
  resolve_snapshot,
}
use argus_mcp_server.SaveRestore.Provider.{
  get_node, get_children, compare, compared, http_provider, get_call,
}
use argus_mcp_server.SaveRestore.Provider.Folders.{
  walk, no_folder, folder_at, folder_of, is_node_id, parts_of, root_folder_id, resolve_folder,
  is_folder,
}
use argus_mcp_server.SaveRestore.Provider.Requests.{request, require_configured, shaped}
use argus_mcp_server.Values.{Value, list}

module _ {W : Type 0} (I : W → Type 0) where
  abbrev pub Keeps : {A : Type 0} → Effect W A → Type 0
  Keeps call = (w : W) → I w → I (call w).1

  pub after-Keeps :
      {A B : Type 0} (next : A → Effect W B) (r : Result A × W)
      → ((a : A) → Keeps (next a))
      → I r.1
      → I (after next r).1
  after-Keeps next (ok a, w) h i = h a w i
  after-Keeps next (raise e, w) h i = i

  pub then-Keeps :
      {A B : Type 0} (call : Effect W A) (next : A → Effect W B)
      → Keeps call
      → ((a : A) → Keeps (next a))
      → Keeps (call >>= next)
  then-Keeps call next h k w i = after-Keeps next (call w) k (h w i)

  pub if-Keeps :
      {A : Type 0} (b : Bool) (x y : Effect W A) → Keeps x → Keeps y → Keeps (if b then x else y)
  if-Keeps true x y h k = h
  if-Keeps false x y h k = k

  shaped-Keeps :
      {A : Type 0} (why : Value → Str) (what : Str) (payload : Value) (o : Option A)
      → Keeps (shaped {W = W} why what payload o)
  shaped-Keeps why what payload (some a) w i = i
  shaped-Keeps why what payload none w i = i

  require-Keeps : (configured : Bool) → Keeps (require_configured {W = W} configured)
  require-Keeps true w i = i
  require-Keeps false w i = i

  -- The operations of the provider that the previews call.
  pub record Reads (provider : SaveRestoreProvider W) : Type 0 where
    pub node : (id : Str) → Keeps (provider.get_node id)
    pub children : (id : Str) → Keeps (provider.get_children id)
    pub folder : (folder : Str) → Keeps (provider.resolve_folder folder)
    pub comparison : (id : Str) → Keeps (provider.compare id)

module _ {W : Type 0} (I : W → Type 0) (http : Http W) (configured : Bool) (why : Value → Str)
    (local_time : ℕ → ℕ) (repr : Str → Str)
    (gets : (call : Call) (w : W) → call.method ≡ Method.get → I w → I (http call w).1) where
  get-Keeps :
      (path : Str) (params : List (Str × Str)) → Keeps I (request http (get_call path params))
  unfolding request
  get-Keeps path params w i = gets (get_call path params) w refl i

  get_node-Keeps : (id : Str) → Keeps I (get_node http configured why local_time repr id)
  unfolding get_node
  get_node-Keeps id =
      then-Keeps I (require_configured configured) _ (require-Keeps I configured) (λ u.
        then-Keeps I (request http (get_call (str "/node/" ++ id) [])) _ (get-Keeps _ _)
          (λ payload. shaped-Keeps I why (str "node") payload _))

  get_children-Keeps : (id : Str) → Keeps I (get_children http configured why local_time repr id)
  unfolding get_children
  get_children-Keeps id =
      then-Keeps I (require_configured configured) _ (require-Keeps I configured) (λ u.
        then-Keeps I (request http (get_call (str "/node/" ++ id ++ str "/children") [])) _
          (get-Keeps _ _) (λ payload. shaped-Keeps I why (str "children") payload _))

  compared-Keeps :
      (payload : Value) → Keeps I (compared http configured why local_time repr payload)
  compared-Keeps (list results) w i = i
  compared-Keeps _ w i = i

  compare-Keeps : (id : Str) → Keeps I (compare http configured why local_time repr id)
  unfolding compare
  compare-Keeps id =
      then-Keeps I (require_configured configured) _ (require-Keeps I configured) (λ u.
        then-Keeps I
          (request http (get_call (str "/compare/" ++ id) ((str "skipReadback", str "true") ∷ [])))
          _ (get-Keeps _ _) compared-Keeps)

  found-Keeps :
      (part : Str) (walked : List Str) (children : List SnrNode)
      (next : SnrNode → Effect W (Str × List Str)) (o : Option SnrNode)
      → ((n : SnrNode) → Keeps I (next n))
      → Keeps I (elim o [
        | none ↦
            no_folder repr
              (get_children http configured why local_time repr)
              part
              walked
              (keep is_folder children)
        | some found ↦ next found
      ])
  found-Keeps part walked children next none h w i = i
  found-Keeps part walked children next (some found) h w i = h found w i

  walk-Keeps :
      (parts : List Str) (parent : Str) (walked : List Str)
      → Keeps I (walk repr (get_children http configured why local_time repr) parts parent walked)
  unfolding walk
  walk-Keeps [] parent walked w i = i
  walk-Keeps (part ∷ parts) parent walked w i =
      then-Keeps I (get_children http configured why local_time repr parent) _
        (get_children-Keeps parent)
        (λ children.
          found-Keeps part walked children
            (λ n.
              walk repr (get_children http configured why local_time repr) parts n.unique_id
                (walked ++ n.name ∷ []))
            (find_named part (keep is_folder children))
            (λ n. walk-Keeps parts n.unique_id (walked ++ n.name ∷ [])))
        w i

  folder_of-Keeps :
      (s : Str) (node : SnrNode)
      → Keeps I (
          folder_of configured repr
            (get_node http configured why local_time repr)
            (get_children http configured why local_time repr)
            s
            node)
  folder_of-Keeps s node w i = elim (Bool-cases (is_folder node)) [
    | inl e ↦ rw e i
    | inr e ↦ rw e i
  ]

  folder_at-Keeps :
      (s : Str)
      → Keeps I (
          folder_at configured repr
            (get_node http configured why local_time repr)
            (get_children http configured why local_time repr)
            s)
  folder_at-Keeps s w i = elim (Bool-cases (s == [] || s == str "/")) [
    | inl e ↦ rw e i
    | inr e ↦
        elim (Bool-cases (
          is_node_id configured repr (get_node http configured why local_time repr)
            (get_children http configured why local_time repr) s)) [
              | inl id ↦
                  rw (e, id)
                    (then-Keeps I (get_node http configured why local_time repr s) _
                      (get_node-Keeps s) (folder_of-Keeps s) w i)
              | inr path ↦
                  rw (e, path)
                    (then-Keeps I
                      (walk repr (get_children http configured why local_time repr) (parts_of s)
                        root_folder_id [])
                      _ (walk-Keeps (parts_of s) root_folder_id []) (λ found w' i'. i') w i)
            ]
  ]

  pub http_provider-Reads : Reads I (http_provider http configured why local_time repr)
  unfolding http_provider resolve_folder
  http_provider-Reads = record {
    node = get_node-Keeps;
    children = get_children-Keeps;
    folder = λ folder.
        then-Keeps I (require_configured configured) _ (require-Keeps I configured)
          (λ u. folder_at-Keeps (strip folder));
    comparison = compare-Keeps;
  }

-- The service's reads, over any provider whose reads keep `I`.
module _ {W : Type 0} (I : W → Type 0) (provider : SaveRestoreProvider W) (reads : Reads I provider)
    (repr : Str → Str) where
  checked-Keeps :
      (test : SnrNode → Bool) (wanted id : Str) (node : SnrNode)
      → Keeps I (checked provider repr test wanted id node)
  checked-Keeps test wanted id node w i = elim (Bool-cases (test node)) [
    | inl e ↦ rw e i
    | inr e ↦ rw e i
  ]

  picked-Keeps :
      (name : Str) (place : Str × Str) (children : List SnrNode)
      → Keeps I (pick_configuration provider repr name place children)
  picked-Keeps name (folder_id, folder_path) children w i =
      elim (Option-cases (find_named name (keep is_configuration children))) [
        | inl e ↦ rw (e, pick_configuration) i
        | inr (node, e) ↦ rw (e, pick_configuration) i
      ]

  path-Keeps : (p : Str × Str) → Keeps I (resolve_path provider repr p)
  path-Keeps p w i = elim (Bool-cases (nonempty p.0 && nonempty p.1)) [
    | inr e ↦ rw e i
    | inl e ↦ rw e (
        then-Keeps I (provider.resolve_folder p.0) _ (reads.folder p.0)
          (λ place.
            then-Keeps I (provider.get_children place.0) _ (reads.children place.0)
              (picked-Keeps p.1 place))
          w i)
  ]

  pub resolve_configuration-Keeps :
      (configuration : Str) → Keeps I (resolve_configuration provider repr configuration)
  unfolding resolve_configuration
  resolve_configuration-Keeps configuration w i =
      elim (Bool-cases (is_uuid (strip configuration))) [
        | inl e ↦ rw e (
            then-Keeps I (provider.get_node (strip configuration)) _
              (reads.node (strip configuration))
              (checked-Keeps is_configuration (str "configuration") (strip configuration)) w i)
        | inr e ↦ rw e (path-Keeps (rpartition 47 (strip_char 47 (strip configuration))) w i)
      ]

  list_snapshots-Keeps :
      (configuration : Str) → Keeps I (list_snapshots provider repr configuration)
  unfolding list_snapshots
  list_snapshots-Keeps configuration =
      then-Keeps I (resolve_configuration provider repr configuration) _
        (resolve_configuration-Keeps configuration)
        (λ found.
          then-Keeps I (provider.get_children found.0.unique_id) _
            (reads.children found.0.unique_id) (λ children w i. i))

  pick_snapshot-Keeps :
      (s : Str) (config : SnrNode) (path : Str) (listed : List SnrNode)
      → Keeps I (pick_snapshot provider repr s (config, path, listed))
  pick_snapshot-Keeps s config path [] w i = i
  pick_snapshot-Keeps s config path (newest ∷ older) w i = elim (Bool-cases (is_latest s)) [
    | inl e ↦ rw e i
    | inr e ↦ elim (Option-cases (find_named s (newest ∷ older))) [
      | inl e' ↦ rw (e, e') i
      | inr (node, e') ↦ rw (e, e') i
    ]
  ]

  resolve_snapshot-Keeps :
      (snapshot configuration : Str)
      → Keeps I (resolve_snapshot provider repr snapshot configuration)
  unfolding resolve_snapshot
  resolve_snapshot-Keeps snapshot configuration w i = elim (Bool-cases (is_uuid (strip snapshot))) [
    | inl e ↦ rw e (
        then-Keeps I (provider.get_node (strip snapshot)) _ (reads.node (strip snapshot))
          (checked-Keeps is_snapshot (str "snapshot") (strip snapshot)) w i)
    | inr e ↦ elim (Bool-cases (nonempty configuration)) [
      | inl e' ↦
          rw (e, e')
            (then-Keeps I (list_snapshots provider repr configuration) _
              (list_snapshots-Keeps configuration)
              (λ found. pick_snapshot-Keeps (strip snapshot) found.0 found.1 found.2) w i)
      | inr e' ↦ rw (e, e') i
    ]
  ]

  pub restore_preview-Keeps :
      (snapshot configuration : Str)
      → Keeps I (restore_preview provider repr snapshot configuration)
  unfolding restore_preview
  restore_preview-Keeps snapshot configuration =
      then-Keeps I (resolve_snapshot provider repr snapshot configuration) _
        (resolve_snapshot-Keeps snapshot configuration)
        (λ found.
          then-Keeps I (provider.compare found.0.unique_id) _ (reads.comparison found.0.unique_id)
            (λ compared w i. i))
