-- ===== src/SaveRestore/Tests.antt =====
-- A configuration of two magnets in a folder, with two snapshots; the service counts its calls.
use argus_mcp_server.Dict
use argus_mcp_server.Dict.{Dict}
use argus_mcp_server.Effects.{Effect}
use argus_mcp_server.Errors.{ok}
use argus_mcp_server.Inventory.{InventoryListing, BeamlineDevice}
use argus_mcp_server.Prelude.{
  ℕ, suc, Str, str, true, false, [], ◌∷◌, List, some, none, refl, if◌then◌else◌, ◌==◌, str_eq,
  str_beq, is_space, strip, lower, lower_char, ends_with, starts_with, strip_char, rpartition,
  count_char, sorted,
}
use argus_mcp_server.Values.{Value}
use argus_mcp_server.SaveRestore.{restore, Restored, restored, previewed}
use argus_mcp_server.SaveRestore.Plan.{PvItem, ConfigurationPlan, plan_configuration}
use argus_mcp_server.SaveRestore.Nodes.{SnrNode, SaveRestoreProvider, Comparison, Failure}
use argus_mcp_server.SaveRestore.Restores.{restore_steps, Restores}
use argus_mcp_server.SaveRestore.Planned.{plan_configuration-IsPlanned, IsPlanned}

abbrev node : Str → Str → Str → ℕ → SnrNode
node unique_id name node_type created = record {
  unique_id = unique_id;
  name = name;
  node_type = node_type;
  description = none;
  created = some created;
  last_modified = none;
  user_name = none;
}

abbrev quads : SnrNode
quads = node (str "c1") (str "Quads") (str "CONFIGURATION") 1

abbrev morning : SnrNode
morning = node (str "s1") (str "Morning") (str "SNAPSHOT") 5

abbrev evening : SnrNode
evening = node (str "s2") (str "Evening") (str "SNAPSHOT") 9

abbrev compared : List Comparison
compared =
    record {
      pv_name = str "Q1:SP";
      equal = false;
      saved = Value.text (str "4");
      live = Value.text (str "5");
      delta = none;
    }
    ∷ record {
      pv_name = str "Q2:SP";
      equal = true;
      saved = Value.null;
      live = Value.null;
      delta = none;
    }
    ∷ []

abbrev failures : List Failure
failures = record { pv_name = str "Q2:SP"; error = str "no write access" } ∷ []

abbrev service : SaveRestoreProvider ℕ
service = record {
  get_node = λ id w. (ok quads, suc w);
  get_children =
      λ id w. (ok (if id == str "f1" then quads ∷ [] else morning ∷ evening ∷ []), suc w);
  resolve_folder = λ folder w. (ok (str "f1", str "/BTF"), suc w);
  create_configuration = λ folder name pvs description w. (ok quads, suc w);
  take_snapshot = λ config name comment w. (ok (evening, []), suc w);
  compare = λ id w. (ok compared, suc w);
  restore = λ id w. (ok failures, suc w);
}

abbrev same : Str → Str
same s = s

abbrev no_text : Value → Str
no_text v = []

abbrev done : Restored
done =
    restored service same no_text
      (previewed service same evening (str "/BTF/Quads / Evening") compared) failures

restore_steps_example : Restores service same (str "latest") (str "BTF/Quads") done 0 5
unfolding restore strip is_space strip_char rpartition count_char lower lower_char str_beq
restore_steps_example =
    restore_steps service same no_text (str "latest") (str "BTF/Quads") done 0 5 refl

abbrev device : Str → BeamlineDevice
device name = record {
  name = name;
  ioc_name = [];
  iocprefix = some (str "BTF");
  devgroup = some (str "mag");
  devtype = none;
  devfunc = none;
  zones = str "ALL" ∷ [];
  geo = none;
  asset = none;
  opi = none;
  template = none;
  key_pvs =
      (str "current_setpoint", str "BTF:Q1:CURRENT_SP")
      ∷ (str "current_readback", str "BTF:Q1:CURRENT_RB")
      ∷ [];
  workspace = none;
  link = none;
}

abbrev inventory : Effect ℕ InventoryListing
inventory w =
    (ok (record { source = str "yaml"; devices = device (str "Q1") ∷ []; notes = [] }), suc w)

abbrev planned : ConfigurationPlan
planned = record {
  pv_list =
      record {
        pv_name = str "BTF:Q1:CURRENT_SP";
        readback_pv_name = some (str "BTF:Q1:CURRENT_RB");
        read_only = false;
      }
      ∷ record { pv_name = str "X"; readback_pv_name = none; read_only = false }
      ∷ [];
  devices = (str "Q1", str "BTF:Q1:CURRENT_SP" ∷ []) ∷ (str "(explicit PVs)", str "X" ∷ []) ∷ [];
  skipped = (str "Q9", str "not in this beamline's device inventory") ∷ [];
}

plan_configuration-IsPlanned_example : IsPlanned planned
unfolding plan_configuration strip is_space lower lower_char str_beq sorted ends_with starts_with
    Dict.get Dict.put
plan_configuration-IsPlanned_example =
    plan_configuration-IsPlanned (some inventory) (str "q1" ∷ str "Q9" ∷ str "Q1" ∷ []) true
      (PvItem.pv (str " X ") ∷ PvItem.pv (str "X") ∷ []) planned 0 1 refl
