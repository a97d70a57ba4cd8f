-- ===== src/SaveRestore.antt =====
-- argus/services/saverestore_service.py and the models of argus/providers/saverestore/models.py:
-- configurations planned from devices, nodes found by id or path, snapshots taken and restored. The
-- provider and the device inventory are parameters; the clock's text, `repr` of a text and the text
-- of a value are arguments of the operations that write them.
pub mod Plan
pub mod Decode
pub mod Provider
pub mod Nodes
pub mod Planned
pub mod Newest
pub mod Restores
pub mod Resolved
pub mod Tests
use argus_mcp_server.Dict
use argus_mcp_server.Dict.{Dict}
use argus_mcp_server.Effects.{Effect, pure, fail, ◌>>=◌}
use argus_mcp_server.Errors.{argus, ErrorClass}
use argus_mcp_server.Inventory.{InventoryListing}
use argus_mcp_server.Prelude.{
  ℕ, ◌+◌, ◌-◌, Str, str, ◌++◌, Bool, true, false, not, List, [], ◌∷◌, Option, none, some, length,
  take, keep, map, if◌then◌else◌, join, nonempty, or_else, show, strip, truthy, leb,
}
use argus_mcp_server.Values.{Value}
use argus_mcp_server.SaveRestore.Plan.{SnrPvEntry, PvItem, ConfigurationPlan, plan_configuration}
use argus_mcp_server.SaveRestore.Nodes.{
  SnrNode, SaveRestoreProvider, SnrSnapshotValue, Comparison, Failure, resolve_configuration,
  resolve_snapshot,
}

pub record LogbookSuggestion : Type 0 where
  pub title : Str
  pub body : Str

pub record CreatedConfiguration : Type 0 where
  pub node : SnrNode
  pub path : Str
  pub pv_count : ℕ
  pub readback_count : ℕ
  pub devices : Dict (List Str)
  pub skipped_devices : Dict Str
  pub logbook_suggestion : LogbookSuggestion

pub record TakenSnapshot : Type 0 where
  pub snapshot : SnrNode
  pub configuration : SnrNode
  pub path : Str
  pub pv_count : ℕ
  pub not_connected : List Str
  pub logbook_suggestion : LogbookSuggestion

pub record RestorePreview : Type 0 where
  pub snapshot : SnrNode
  pub label : Str
  pub changes : List Comparison
  pub unchanged : ℕ

pub record Restored : Type 0 where
  pub snapshot : SnrNode
  pub label : Str
  pub pvs_written : ℕ
  pub changed_before_restore : List Comparison
  pub failed : List Failure
  pub logbook_suggestion : LogbookSuggestion

abbrev comma : Str
comma = str ", "

abbrev describe_devices : ConfigurationPlan → Str
describe_devices plan = str "Created by ARGUS for: " ++ join comma (Dict.keys plan.devices)

-- Nothing is saved: why.
abbrev nothing_to_save : Dict Str → Str
nothing_to_save skipped =
    str "Nothing to save: "
    ++ or_else (some (join (str "; ") (map (λ e. e.0 ++ str ": " ++ e.1) skipped)))
        (str "no devices or PVs given")
    ++ str "."

abbrev pub has_readback : SnrPvEntry → Bool
has_readback pv = truthy pv.readback_pv_name

-- The answer of create_configuration.
abbrev created : ConfigurationPlan → (folder_path : Str) → SnrNode → CreatedConfiguration
created plan folder_path node =
    let path = folder_path ++ str "/" ++ node.name in
    let readbacks = length (keep has_readback plan.pv_list) in
    record {
      node = node;
      path = path;
      pv_count = length plan.pv_list;
      readback_count = readbacks;
      devices = plan.devices;
      skipped_devices = plan.skipped;
      logbook_suggestion = record {
        title = str "Save-and-restore configuration " ++ node.name ++ str " created";
        body =
            str "Created the save-and-restore configuration "
            ++ path
            ++ str " (id "
            ++ node.unique_id
            ++ str ") with "
            ++ show (length plan.pv_list)
            ++ str " setpoint PV(s)"
            ++ (if leb 1 readbacks then str " and " ++ show readbacks ++ str " readback(s)" else [])
            ++ str ", for: "
            ++ join comma (Dict.keys plan.devices)
            ++ str "."
            ++ (elim plan.skipped [
              | [] ↦ []
              | e ∷ es ↦ str " Not included: " ++ join comma (Dict.keys plan.skipped) ++ str "."
            ]);
      };
    }

module _ {W : Type 0} (provider : SaveRestoreProvider W) (repr : Str → Str) where
  -- After the plan is made.
  abbrev save_plan :
      (name folder description : Str) → ConfigurationPlan → Effect W CreatedConfiguration
  save_plan name folder description plan = elim plan.pv_list [
    | [] ↦ fail (argus ErrorClass.validation_error (nothing_to_save plan.skipped))
    | pv ∷ pvs ↦ provider.resolve_folder folder >>= λ place.
        provider.create_configuration place.0 name plan.pv_list
          (or_else (some description) (describe_devices plan))
        >>= λ node. pure (created plan place.1 node)
  ]

  unfoldable pub create_configuration :
      Option (Effect W InventoryListing)
      → (name folder : Str) (devices : List Str) (include_readbacks : Bool) (pvs : List PvItem)
      → (description : Str) → Effect W CreatedConfiguration
  unfolding plan_configuration
  create_configuration inventory name folder devices include_readbacks pvs description =
      plan_configuration inventory devices include_readbacks pvs
      >>= save_plan name folder description

  -- The PVs whose saved value is None.
  abbrev pub missing_of : List SnrSnapshotValue → List Str
  missing_of items =
      map (λ (i : SnrSnapshotValue). i.pv_name)
        (keep (λ (i : SnrSnapshotValue). elim i.value [ Value.null ↦ true | _ ↦ false ]) items)

  abbrev taken :
      SnrNode → (config_path comment : Str) → SnrNode → List SnrSnapshotValue → TakenSnapshot
  taken config config_path comment node items = record {
    snapshot = node;
    configuration = config;
    path = config_path;
    pv_count = length items;
    not_connected = missing_of items;
    logbook_suggestion = record {
      title = str "Save-and-restore snapshot " ++ node.name;
      body =
          str "Took the save-and-restore snapshot "
          ++ repr node.name
          ++ str " (id "
          ++ node.unique_id
          ++ str ") of configuration "
          ++ config_path
          ++ str " (id "
          ++ config.unique_id
          ++ str "): "
          ++ show (length items)
          ++ str " PV(s) saved"
          ++ (elim (missing_of items) [
            | [] ↦ []
            | m ∷ ms ↦
                comma
                ++ show (length (missing_of items))
                ++ str " not connected ("
                ++ join comma (take 10 (missing_of items))
                ++ str ")"
          ])
          ++ str "."
          ++ (if nonempty comment then str " Comment: " ++ comment else []);
    };
  }

  -- `when` is the time in UTC as text.
  unfoldable pub take_snapshot : (when configuration name comment : Str) → Effect W TakenSnapshot
  unfolding resolve_configuration
  take_snapshot when configuration name comment =
      resolve_configuration provider repr configuration >>= λ found.
      let snapshot_name = or_else (some (strip name)) (found.0.name ++ str " " ++ when) in
      provider.take_snapshot found.0.unique_id snapshot_name (or_else (some comment) snapshot_name)
      >>= λ saved. pure (taken found.0 found.1 comment saved.0 saved.1)

  abbrev pub previewed : SnrNode → Str → List Comparison → RestorePreview
  previewed node label compared =
      let changes = keep (λ (c : Comparison). not c.equal) compared in
      record {
        snapshot = node;
        label = label;
        changes = changes;
        unchanged = length compared - length changes;
      }

  unfoldable pub restore_preview : (snapshot configuration : Str) → Effect W RestorePreview
  unfolding resolve_snapshot
  restore_preview snapshot configuration =
      resolve_snapshot provider repr snapshot configuration >>= λ found.
      provider.compare found.0.unique_id >>= λ compared. pure (previewed found.0 found.1 compared)

  abbrev failed_text : List Failure → Str
  failed_text [] = []
  failed_text (f ∷ fs) =
      str ". "
      ++ show (length (f ∷ fs))
      ++ str " PV(s) FAILED: "
      ++ join comma
          (map (λ (g : Failure). g.pv_name ++ str " (" ++ g.error ++ str ")") (take 10 (f ∷ fs)))

  abbrev pub restored : (Value → Str) → RestorePreview → List Failure → Restored
  restored shown preview failures =
      let written = length preview.changes + preview.unchanged - length failures in
      let changed = join comma (
        map
          (λ (c : Comparison). c.pv_name ++ str " " ++ shown c.live ++ str " -> " ++ shown c.saved)
          (take 15 preview.changes)) in
      record {
        snapshot = preview.snapshot;
        label = preview.label;
        pvs_written = written;
        changed_before_restore = preview.changes;
        failed = failures;
        logbook_suggestion = record {
          title = str "Save-and-restore: restored snapshot " ++ preview.snapshot.name;
          body =
              str "Restored the save-and-restore snapshot "
              ++ preview.label
              ++ str " (id "
              ++ preview.snapshot.unique_id
              ++ str "): "
              ++ show written
              ++ str " setpoint PV(s) written"
              ++ (if nonempty changed
                  then str "; changed from live values: " ++ changed
                  else str "; no PV differed from the snapshot")
              ++ failed_text failures
              ++ str ".";
        };
      }

  unfoldable pub restore : (Value → Str) → (snapshot configuration : Str) → Effect W Restored
  unfolding restore_preview
  restore shown snapshot configuration = restore_preview snapshot configuration >>= λ preview.
      provider.restore preview.snapshot.unique_id >>= λ failures.
      pure (restored shown preview failures)
