-- ===== src/Tools/SaveRestore/Fields.antt =====
-- What saverestore_tools.py reads from its arguments and makes of the service's results:
-- `dataclasses.asdict` of a node, and the dictionaries that the service answers.
use argus_mcp_server.Dict.{Dict}
use argus_mcp_server.Effects.{Effect}
use argus_mcp_server.Errors.{argus, ErrorClass, Result, ok, raise}
use argus_mcp_server.Prelude.{
  ℕ, Str, str, ◌++◌, Bool, true, false, List, [], ◌∷◌, Option, none, some, map, if◌then◌else◌,
}
use argus_mcp_server.Registry.Register.{get_field}
use argus_mcp_server.Registry.Response
use argus_mcp_server.SaveRestore.{LogbookSuggestion, CreatedConfiguration, TakenSnapshot, Restored}
use argus_mcp_server.SaveRestore.Nodes.{SnrNode, Comparison, Failure}
use argus_mcp_server.SaveRestore.Plan.{PvItem}
use argus_mcp_server.Tools.Arguments.{
  as_list, text_list, optional, iterate, all_texts, listed, str_of,
}
use argus_mcp_server.Values.{
  Value, Fields, null, bool, int, pos, text, list, dict, other, end, field, truth,
}

-- The texts that Python makes: `repr` of a value and of a text, `str` of a value, an instant in ISO
-- form and to the minute, and the time now as the service writes it.
pub record Texts : Type 0 where
  pub repr : Value → Str
  pub quoted : Str → Str
  pub shown : Value → Str
  pub iso : ℕ → Str
  pub minute : ℕ → Str
  pub now : Str

-- The service's reads that pass the provider's on; a dataclass is its value.
pub record Reads (W : Type 0) : Type 0 where
  pub search : Str → Effect W (List SnrNode)
  pub get_snapshot : Str → Effect W Value
  pub get_configuration : Str → Effect W Value

abbrev instant : Texts → Option ℕ → Value
instant t none = null
instant t (some n) = other (t.iso n)

unfoldable pub node_dict : Texts → SnrNode → Dict Value
node_dict t n =
    (str "unique_id", text n.unique_id)
    ∷ (str "name", text n.name)
    ∷ (str "node_type", text n.node_type)
    ∷ (str "description", optional n.description)
    ∷ (str "created", instant t n.created)
    ∷ (str "last_modified", instant t n.last_modified)
    ∷ (str "user_name", optional n.user_name)
    ∷ []

abbrev pub node_value : Texts → SnrNode → Value
unfolding node_dict
node_value t n = dict (Response.to_fields (node_dict t n))

-- An entry of "snapshots".
unfoldable pub snapshot_entry : Texts → SnrNode → Dict Value
snapshot_entry t n =
    (str "unique_id", text n.unique_id)
    ∷ (str "name", text n.name)
    ∷ (str "created", instant t n.created)
    ∷ (str "owner", optional n.user_name)
    ∷ (str "comment", optional n.description)
    ∷ (str "node_type", text n.node_type)
    ∷ []

abbrev suggestion : LogbookSuggestion → Value
suggestion s = dict (field (str "title") (text s.title) (field (str "text") (text s.body) end))

abbrev texts_dict : Dict Str → Value
texts_dict d = dict (Response.to_fields (map (λ e. (e.0, text e.1)) d))

unfoldable pub created_dict : CreatedConfiguration → Dict Value
created_dict c =
    (
      str "configuration",
      dict (
          field (str "unique_id") (text c.node.unique_id) (
            field (str "name") (text c.node.name) (
              field (str "path") (text c.path)
                (field (str "owner") (optional c.node.user_name) end)))),
    )
    ∷ (str "pv_count", int (pos c.pv_count))
    ∷ (str "readback_count", int (pos c.readback_count))
    ∷ (str "devices", dict (Response.to_fields (map (λ e. (e.0, text_list e.1)) c.devices)))
    ∷ (str "skipped_devices", texts_dict c.skipped_devices)
    ∷ (str "logbook_suggestion", suggestion c.logbook_suggestion)
    ∷ []

unfoldable pub taken_dict : TakenSnapshot → Dict Value
taken_dict s =
    (
      str "snapshot",
      dict (
          field (str "unique_id") (text s.snapshot.unique_id) (
            field (str "name") (text s.snapshot.name)
              (field (str "owner") (optional s.snapshot.user_name) end))),
    )
    ∷ (
      str "configuration",
      dict (
          field (str "unique_id") (text s.configuration.unique_id)
            (field (str "path") (text s.path) end)),
    )
    ∷ (str "pv_count", int (pos s.pv_count))
    ∷ (str "not_connected", text_list s.not_connected)
    ∷ (str "logbook_suggestion", suggestion s.logbook_suggestion)
    ∷ []

abbrev comparison_dict : Comparison → Dict Value
comparison_dict c =
    (str "pv_name", text c.pv_name)
    ∷ (str "equal", bool c.equal)
    ∷ (str "saved", c.saved)
    ∷ (str "live", c.live)
    ∷ (str "delta", optional c.delta)
    ∷ []

abbrev failure_dict : Failure → Dict Value
failure_dict f = (str "pv_name", text f.pv_name) ∷ (str "error", text f.error) ∷ []

unfoldable pub restored_dict : Restored → Dict Value
restored_dict r =
    (
      str "snapshot",
      dict (
          field (str "unique_id") (text r.snapshot.unique_id)
            (field (str "name") (text r.snapshot.name) (field (str "label") (text r.label) end))),
    )
    ∷ (str "pvs_written", int (pos r.pvs_written))
    ∷ (str "changed_before_restore", as_list (map comparison_dict r.changed_before_restore))
    ∷ (str "failed", as_list (map failure_dict r.failed))
    ∷ (str "logbook_suggestion", suggestion r.logbook_suggestion)
    ∷ []

-- `value is not False`
abbrev pub is_not_false : Value → Bool
is_not_false (bool false) = false
is_not_false _ = true

abbrev not_strings : Str → Result (List Str)
not_strings name =
    raise (argus ErrorClass.validation_error (name ++ str " must be a list of strings."))

abbrev strings_or : Str → Option (List Str) → Result (List Str)
strings_or name none = not_strings name
strings_or name (some ss) = ok ss

unfoldable pub string_list : Value → Str → Result (List Str)
unfolding all_texts listed
string_list null name = ok []
string_list (list vs) name = strings_or name (all_texts (listed vs))
string_list _ name = not_strings name

-- The value under a key of a dictionary.
unfoldable pub field_value : Fields → Str → Value
unfolding get_field
field_value fs k = elim (get_field fs k) [ none ↦ null | some v ↦ v ]

module _ (repr : Value → Str) where
  -- `str(v)` where `v` is true.
  abbrev true_text : Value → Option Str
  true_text v = if truth v then some (str_of repr v) else none

  -- How the loop over `pvs` sees an item.
  abbrev pv_item : Value → PvItem
  pv_item (text s) = PvItem.pv s
  pv_item (dict fs) =
      PvItem.mapping (true_text (field_value fs (str "setpoint")))
        (true_text (field_value fs (str "readback")))
  pv_item _ = PvItem.other

  abbrev items_of : Result (List Value) → Result (List PvItem)
  items_of (ok vs) = ok (map pv_item vs)
  items_of (raise e) = raise e

  -- `pvs or []`
  unfoldable pub pv_items : Value → Result (List PvItem)
  unfolding iterate
  pv_items v = if truth v then items_of (iterate v) else ok []
