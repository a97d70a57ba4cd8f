-- ===== src/Tools/SaveRestore/Describe.antt =====
-- The previews of saverestore_tools.py, which the user confirms: each reads what the handler will use.
use argus_mcp_server.Dict.{Dict}
use argus_mcp_server.Effects.{Effect, pure, ◌>>=◌}
use argus_mcp_server.Inventory.{InventoryListing}
use argus_mcp_server.Prelude.{
  ◌-◌, Str, str, ◌++◌, true, List, [], ◌∷◌, Option, none, some, length, map, take, join, show,
  if◌then◌else◌, or_else, nonempty, leb,
}
use argus_mcp_server.SaveRestore.{RestorePreview, restore_preview}
use argus_mcp_server.SaveRestore.Nodes.{
  SnrNode, SaveRestoreProvider, Comparison, resolve_configuration,
}
use argus_mcp_server.SaveRestore.Plan.{SnrPvEntry, ConfigurationPlan, plan_configuration}
use argus_mcp_server.Tools.Arguments.{arg, arg_or, invalid, lift, str_of, str_or_empty}
use argus_mcp_server.Tools.SaveRestore.Fields.{Texts, string_list, pv_items, is_not_false}
use argus_mcp_server.Values.{Value, bool, text, truth}

abbrev pv_text : SnrPvEntry → Str
pv_text pv = pv.pv_name ++ (elim pv.readback_pv_name [
  | none ↦ []
  | some r ↦ if nonempty r then str " (readback " ++ r ++ str ")" else []
])

abbrev skipped_text : Dict Str → Str
skipped_text [] = []
skipped_text (e ∷ es) =
    str " Not included: "
    ++ join (str "; ") (map (λ d. d.0 ++ str " (" ++ d.1 ++ str ")") (e ∷ es))
    ++ str "."

module _ {W : Type 0} (provider : SaveRestoreProvider W)
    (inventory : Option (Effect W InventoryListing)) (t : Texts) where
  -- The plan of `_plan_text`.
  abbrev pub planned : Dict Value → Effect W ConfigurationPlan
  planned arguments =
      lift (string_list (arg arguments (str "devices")) (str "devices")) >>= λ devices.
      lift (pv_items t.repr (arg arguments (str "pvs"))) >>= λ pvs.
      plan_configuration inventory devices
        (is_not_false (arg_or (bool true) arguments (str "include_readbacks"))) pvs

  abbrev pub describe_plan : Dict Value → ConfigurationPlan → Effect W Str
  describe_plan arguments plan = elim plan.pv_list [
    | [] ↦ invalid (
        str "Nothing to save: "
        ++ or_else (some (join (str "; ") (map (λ e. e.0 ++ str ": " ++ e.1) plan.skipped)))
            (str "no devices or PVs given")
        ++ str ".")
    | pv ∷ pvs ↦
        provider.resolve_folder (str_or_empty t.repr (arg arguments (str "folder"))) >>= λ place.
        pure (
          str "Create the save-and-restore configuration "
          ++ place.1
          ++ str "/"
          ++ str_of t.repr (arg arguments (str "name"))
          ++ str " under your name, with "
          ++ show (length plan.pv_list)
          ++ str " PV(s): "
          ++ join (str "; ") (map pv_text plan.pv_list)
          ++ str "."
          ++ skipped_text plan.skipped)
  ]

  unfoldable pub describe_create_configuration : Dict Value → Effect W Str
  unfolding arg_or string_list pv_items plan_configuration
  describe_create_configuration arguments = planned arguments >>= describe_plan arguments

module _ {W : Type 0} (provider : SaveRestoreProvider W) (t : Texts) where
  abbrev name_or_now : Value → SnrNode → Value
  name_or_now name config = if truth name then name else text (config.name ++ str " <now>")

  abbrev comment_text : Value → Str
  comment_text comment = if truth comment then str ", comment " ++ t.repr comment else []

  unfoldable pub describe_take_snapshot : Dict Value → Effect W Str
  unfolding arg_or resolve_configuration
  describe_take_snapshot arguments =
      resolve_configuration provider t.quoted
        (str_or_empty t.repr (arg arguments (str "configuration")))
      >>= λ found. pure (
          str "Take a snapshot "
          ++ t.repr (name_or_now (arg arguments (str "name")) found.0)
          ++ str " of the configuration "
          ++ found.1
          ++ str
              " under your name: the save-and-restore service reads its PVs now and saves their values"
          ++ comment_text (arg arguments (str "comment"))
          ++ str ". Nothing on the machine is changed.")

  abbrev taken_text : SnrNode → Str
  taken_text node = elim node.created [
    | none ↦ []
    | some n ↦
        str " (taken "
        ++ t.minute n
        ++ str " by "
        ++ or_else node.user_name (str "unknown")
        ++ str ")"
  ]

  abbrev delta_text : Option Str → Str
  delta_text none = []
  delta_text (some d) = if nonempty d then str " (delta " ++ d ++ str ")" else []

  abbrev change_text : Comparison → Str
  change_text c =
      c.pv_name ++ str ": " ++ t.shown c.live ++ str " -> " ++ t.shown c.saved ++ delta_text c.delta

  abbrev changes_text : RestorePreview → List Comparison → Str
  changes_text preview [] =
      str "all "
      ++ show preview.unchanged
      ++ str " PV(s) already match the snapshot, so no value would change."
  changes_text preview (c ∷ cs) =
      show (length (c ∷ cs))
      ++ str " setpoint PV(s) WOULD CHANGE (live -> saved): "
      ++ join (str "; ") (map change_text (take 40 (c ∷ cs)))
      ++ (if leb 41 (length (c ∷ cs))
          then str " ...and " ++ show (length (c ∷ cs) - 40) ++ str " more"
          else [])
      ++ str ". "
      ++ show preview.unchanged
      ++ str " already match. Readbacks and read-only PVs are not written."

  unfoldable pub restore_text : RestorePreview → Str
  restore_text preview =
      str "RESTORE the snapshot "
      ++ preview.label
      ++ taken_text preview.snapshot
      ++ str " to the LIVE machine, under your name: "
      ++ changes_text preview preview.changes

  unfoldable pub describe_restore : Dict Value → Effect W Str
  unfolding arg_or restore_preview restore_text
  describe_restore arguments =
      restore_preview provider t.quoted (str_or_empty t.repr (arg arguments (str "snapshot")))
        (str_or_empty t.repr (arg arguments (str "configuration")))
      >>= λ preview. pure (restore_text preview)
