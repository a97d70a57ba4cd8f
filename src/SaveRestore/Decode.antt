-- ===== src/SaveRestore/Decode.antt =====
-- What argus/providers/saverestore/saverestore.py makes of the service's JSON. An id, a name, a unit
-- or a comment that is no text, which the service does not send, is as if it were missing; a time is in
-- whole milliseconds. `datetime.fromtimestamp` makes the local time of an instant without its zone:
-- `local_time`, as milliseconds since the start of 1970 on that clock.
use argus_mcp_server.Errors.{Result, ok, raise, unexpected, ◌>>=◌}
use argus_mcp_server.Prelude.{ℕ, Str, str, List, [], ◌∷◌, Option, none, some, if◌then◌else◌}
use argus_mcp_server.Registry.Register.{get_field}
use argus_mcp_server.SaveRestore.Nodes.{SnrNode, SnrSnapshotValue, Comparison, Failure}
use argus_mcp_server.Tools.Arguments.{iterate}
use argus_mcp_server.Values.{Value, Fields, null, text, int, pos, dict, end, truth}

abbrev pub a_text : Option Value → Option Str
a_text (some (text s)) = some s
a_text _ = none

abbrev pub cons_both {ℓ} : {A : Type ℓ} → Option A → Option (List A) → Option (List A)
cons_both (some a) (some rest) = some (a ∷ rest)
cons_both _ _ = none

module _ (local_time : ℕ → ℕ) where
  -- `_epoch_ms_to_dt`
  abbrev milliseconds : Option Value → Option ℕ
  milliseconds (some (int (pos n))) = some (local_time n)
  milliseconds _ = none

  abbrev to_node_of : Fields → Option Str → Option Str → Option Str → Option SnrNode
  to_node_of fs (some unique_id) (some name) (some node_type) = some (record {
    unique_id = unique_id;
    name = name;
    node_type = node_type;
    description = a_text (get_field fs (str "description"));
    created = milliseconds (get_field fs (str "created"));
    last_modified = milliseconds (get_field fs (str "lastModified"));
    user_name = a_text (get_field fs (str "userName"));
  })
  to_node_of fs _ _ _ = none

  -- None where Python raises a KeyError or a TypeError.
  unfoldable pub to_node : Value → Option SnrNode
  unfolding get_field
  to_node (dict fs) =
      to_node_of fs (a_text (get_field fs (str "uniqueId"))) (a_text (get_field fs (str "name")))
        (a_text (get_field fs (str "nodeType")))
  to_node _ = none

  unfoldable pub to_nodes : List Value → Option (List SnrNode)
  unfolding to_node
  to_nodes [] = some []
  to_nodes (v ∷ vs) = cons_both (to_node v) (to_nodes vs)

  abbrev nodes_in : Result (List Value) → Option (List SnrNode)
  nodes_in (ok vs) = to_nodes vs
  nodes_in (raise e) = none

  -- `[_to_node(n) for n in payload]`
  unfoldable pub nodes_of : Value → Option (List SnrNode)
  unfolding to_nodes iterate
  nodes_of payload = nodes_in (iterate payload)

-- `payload[key]`
unfoldable pub item : Value → Str → Option Value
unfolding get_field
item (dict fs) key = get_field fs key
item _ key = none

abbrev or_default : Value → Option Value → Value
or_default default none = default
or_default default (some v) = v

-- `v.get(key, default)`, an AttributeError where `v` is no dictionary.
unfoldable pub get_or : Value → Str → Value → Result Value
unfolding get_field
get_or (dict fs) key default = ok (or_default default (get_field fs key))
get_or _ key default = raise (unexpected (str "object has no attribute 'get'"))

-- `v or {}`
abbrev or_empty : Value → Value
or_empty v = if truth v then v else dict end

abbrev text_of : Value → Str
text_of (text s) = s
text_of _ = []

abbrev optional_text : Value → Option Str
optional_text (text s) = some s
optional_text _ = none

unfoldable pub to_snapshot_value : Value → Result SnrSnapshotValue
unfolding get_or
to_snapshot_value v = get_or v (str "configPv") (dict end) >>= λ config_pv.
    get_or v (str "value") null >>= λ value_field.
    get_or config_pv (str "pvName") (text []) >>= λ pv_name.
    get_or (or_empty value_field) (str "value") null >>= λ value.
    get_or v (str "readbackValue") null >>= λ readback.
    get_or (or_empty readback) (str "value") null >>= λ readback_value.
    get_or (or_empty value_field) (str "display") null >>= λ display.
    get_or (or_empty display) (str "units") null >>= λ units.
    get_or (or_empty value_field) (str "alarm") null >>= λ alarm.
    get_or (or_empty alarm) (str "severity") null >>= λ severity. ok (record {
      pv_name = text_of pv_name;
      value = value;
      readback_value = readback_value;
      units = optional_text units;
      severity = optional_text severity;
    })

unfoldable pub to_snapshot_values : List Value → Result (List SnrSnapshotValue)
unfolding to_snapshot_value
to_snapshot_values [] = ok []
to_snapshot_values (v ∷ vs) =
    to_snapshot_value v >>= λ value. to_snapshot_values vs >>= λ values. ok (value ∷ values)

-- `_vtype_value`
abbrev vtype_value : Value → Value
vtype_value (dict fs) = or_default null (get_field fs (str "value"))
vtype_value v = v

abbrev nonempty_or : Str → Value → Str
nonempty_or default (text (c ∷ s)) = c ∷ s
nonempty_or default _ = default

abbrev some_nonempty : Value → Option Str
some_nonempty (text (c ∷ s)) = some (c ∷ s)
some_nonempty _ = none

abbrev field_of : Fields → Str → Value
field_of fs key = or_default null (get_field fs key)

-- The entries of `compare` that are dictionaries.
unfoldable pub comparisons : List Value → List Comparison
unfolding get_field
comparisons [] = []
comparisons (dict fs ∷ vs) =
    record {
      pv_name = text_of (field_of fs (str "pvName"));
      equal = truth (field_of fs (str "equal"));
      saved = vtype_value (field_of fs (str "storedValue"));
      live = vtype_value (field_of fs (str "liveValue"));
      delta = some_nonempty (field_of fs (str "delta"));
    }
    ∷ comparisons vs
comparisons (_ ∷ vs) = comparisons vs

-- The entries of `restore` that are dictionaries.
unfoldable pub failures : List Value → Result (List Failure)
unfolding get_or
failures [] = ok []
failures (dict fs ∷ vs) = get_or (dict fs) (str "snapshotItem") null >>= λ snapshot_item.
    get_or (or_empty snapshot_item) (str "configPv") null >>= λ config_pv.
    get_or (or_empty config_pv) (str "pvName") (text []) >>= λ pv_name. failures vs >>= λ rest. ok (
      record {
        pv_name = text_of pv_name;
        error = nonempty_or (str "unknown error") (field_of fs (str "errorMsg"));
      }
      ∷ rest)
failures (_ ∷ vs) = failures vs
