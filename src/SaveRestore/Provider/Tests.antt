-- ===== src/SaveRestore/Provider/Tests.antt =====
-- A service with one folder; the world is the number of requests.
use argus_mcp_server.Errors.{ok}
use argus_mcp_server.Http.{Http, Call, Method, Reply, answered}
use argus_mcp_server.Prelude.{
  ℕ, suc, Str, str, true, false, some, List, [], ◌∷◌, none, some, ◌≡◌, refl, if◌then◌else◌, ◌==◌,
  str_eq, str_beq, lower, lower_char,
}
use argus_mcp_server.SaveRestore.Decode.{item, to_snapshot_values}
use argus_mcp_server.SaveRestore.Nodes.{SnrNode}
use argus_mcp_server.SaveRestore.Plan.{SnrPvEntry}
use argus_mcp_server.SaveRestore.Provider.{take_snapshot, get_call, pv_entries}
use argus_mcp_server.SaveRestore.Provider.Folders.{walk}
use argus_mcp_server.SaveRestore.Provider.Requests.{request}
use argus_mcp_server.SaveRestore.Provider.Saved.{take_snapshot_saves, IsSaveOf}
use argus_mcp_server.SaveRestore.Provider.Walks.{walk-IsWalk, IsWalk, in_tree}
use argus_mcp_server.SaveRestore.Provider.Records.{
  get_configuration-configuration_body, get_configuration,
}
use argus_mcp_server.Registry.Register.{get_field}
use argus_mcp_server.Tools.Arguments.{listed}
use argus_mcp_server.Values.{Value, truth, Items, text, list, dict, int, pos, cons, nil, field, end}

abbrev folder : Str → Str → SnrNode
folder id name = record {
  unique_id = id;
  name = name;
  node_type = str "FOLDER";
  description = none;
  created = none;
  last_modified = none;
  user_name = none;
}

abbrev tree : Str → List SnrNode
tree id =
    if id == str "root"
    then folder (str "f1") (str "BTF") ∷ []
    else folder (str "f2") (str "Magnets") ∷ []

abbrev spelled : List Str
spelled = str "btf" ∷ str "MAGNETS" ∷ []

abbrev own_names : List Str
own_names = str "BTF" ∷ str "Magnets" ∷ []

walk-IsWalk_example :
    IsWalk tree spelled (str "root") (str "f2") own_names
    × (walk {W = ℕ} (λ s. s) (in_tree (λ s. s) tree) own_names (str "root") [] 0
        ≡ (ok (str "f2", own_names), 0))
unfolding walk str_beq lower lower_char
walk-IsWalk_example =
    walk-IsWalk {W = ℕ} (λ s. s) tree spelled (str "root") (str "f2") own_names 0 0 refl

abbrev reply : ℕ → Value → Reply
reply status json = record {
  status = status;
  reason_phrase = str "OK";
  body = [];
  json = some json;
  error = [];
}

abbrev saved_item : Value
saved_item = dict (
    field (str "configPv") (dict (field (str "pvName") (text (str "Q1:SP")) end))
      (field (str "value") (dict (field (str "value") (int (pos 4)) end)) end))

abbrev saved : Value
saved = dict (
    field (str "snapshotNode")
      (dict (
        field (str "uniqueId") (text (str "s1")) (
          field (str "name") (text (str "Morning"))
            (field (str "nodeType") (text (str "SNAPSHOT")) end))))
      end)

abbrev answer : Method → Value
answer Method.get = list (cons saved_item nil)
answer _ = saved

abbrev service : Http ℕ
service call w = (answered (reply 200 (answer call.method)), suc w)

take_snapshot_saves_example :
    (items : Items) × (call : Call) × (w₁ : ℕ) × (request service
        (get_call (str "/take-snapshot/c1") [])
        0
      ≡ (ok (list items), w₁))
    × (to_snapshot_values (listed items)
        ≡ ok (
            record {
              pv_name = str "Q1:SP";
              value = int (pos 4);
              readback_value = Value.null;
              units = none;
              severity = none;
            }
            ∷ []))
    × IsSaveOf service true (λ v. []) (λ n. n) (λ s. s) (str "c1") (str "Morning") [] items call
    × ((service call w₁).1 ≡ 2)
unfolding take_snapshot str_beq listed truth
take_snapshot_saves_example =
    take_snapshot_saves service true (λ v. []) (λ n. n) (λ s. s) (str "c1") (str "Morning") []
      (record {
        unique_id = str "s1";
        name = str "Morning";
        node_type = str "SNAPSHOT";
        description = none;
        created = none;
        last_modified = none;
        user_name = none;
      })
      _ 0 2 refl

abbrev entries : List SnrPvEntry
entries =
    record { pv_name = str "Q:SP"; readback_pv_name = some (str "Q:RB"); read_only = false }
    ∷ record { pv_name = str "R"; readback_pv_name = none; read_only = true }
    ∷ []

abbrev stored : Value
stored = dict (
    field (str "uniqueId") (text (str "c1")) (field (str "pvList") (list (pv_entries entries)) end))

abbrev keeper : Http ℕ
keeper call w = (answered (reply 200 stored), suc w)

get_configuration-configuration_body_example :
    get_configuration keeper true (λ v. []) (str "c1") 0
    ≡ (ok (record { unique_id = str "c1"; pv_list = entries }), 1)
unfolding request item pv_entries str_beq get_field
get_configuration-configuration_body_example =
    get_configuration-configuration_body keeper (λ v. []) (str "c1") (str "Magnets") [] entries
      stored 0 1 (refl, (tt, tt)) refl refl refl
