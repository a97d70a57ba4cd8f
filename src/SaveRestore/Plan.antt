-- ===== src/SaveRestore/Plan.antt =====
-- plan_configuration of argus/services/saverestore_service.py: the PVs that a configuration gets from
-- devices and from PVs given explicitly, and why some devices contribute none.
use argus_mcp_server.Dict
use argus_mcp_server.Dict.{Dict}
use argus_mcp_server.Effects.{Effect, pure, fail, ◌>>=◌}
use argus_mcp_server.Errors.{argus, ErrorClass, Result, ok, raise}
use argus_mcp_server.Inventory.{InventoryListing, BeamlineDevice}
use argus_mcp_server.Prelude.{
  ◌-◌, Str, str, ◌++◌, Bool, false, List, [], ◌∷◌, Option, none, some, length, take, keep, any,
  if◌then◌else◌, ◌==◌, str_eq, or_else, strip, lower, ends_with, sorted,
}

pub record SnrPvEntry : Type 0 where
  pub pv_name : Str
  pub readback_pv_name : Option Str
  pub read_only : Bool

pub record ConfigurationPlan : Type 0 where
  pub pv_list : List SnrPvEntry
  pub devices : Dict (List Str)
  pub skipped : Dict Str

-- The plan with its local set of setpoints seen.
pub record Planning : Type 0 where
  pub seen : List Str
  pub plan : ConfigurationPlan

-- An item of `pvs`: a text, a mapping with its texts, or something else.
pub data PvItem : Type 0 where
  pv : Str → PvItem
  mapping : (setpoint readback : Option Str) → PvItem
  other : PvItem

abbrev pub setpoint_suffix : Str
setpoint_suffix = str "_setpoint"

abbrev pub readback_suffix : Str
readback_suffix = str "_readback"

abbrev pub no_plan : Planning
no_plan = record { seen = []; plan = record { pv_list = []; devices = []; skipped = [] } }

-- `plan.devices.setdefault(owner, []).append(setpoint)`
abbrev pub append_to : Dict (List Str) → Str → Str → Dict (List Str)
append_to devices owner setpoint =
    Dict.put devices owner
      ((elim (Dict.get devices owner) [ none ↦ [] | some setpoints ↦ setpoints ]) ++ setpoint ∷ [])

-- The inner function `add`.
unfoldable pub add :
    Bool → Planning → (setpoint : Str) (readback : Option Str) (owner : Str) → Planning
add include_readbacks p setpoint readback owner =
    if any (λ s. s == setpoint) p.seen then p else (record {
      seen = setpoint ∷ p.seen;
      plan = record {
        pv_list =
            p.plan.pv_list
            ++ record {
              pv_name = setpoint;
              readback_pv_name = if include_readbacks then readback else none;
              read_only = false;
            }
              ∷ [];
        devices = append_to p.plan.devices owner setpoint;
        skipped = p.plan.skipped;
      };
    })

unfoldable pub skip : Planning → (name reason : Str) → Planning
skip p name reason = record {
  seen = p.seen;
  plan = record {
    pv_list = p.plan.pv_list;
    devices = p.plan.devices;
    skipped = Dict.put p.plan.skipped name reason;
  };
}

-- `{d.name.lower(): d for d in listing.devices}`
abbrev pub put_all : Dict BeamlineDevice → List BeamlineDevice → Dict BeamlineDevice
put_all by_name [] = by_name
put_all by_name (d ∷ ds) = put_all (Dict.put by_name (lower d.name) d) ds

abbrev pub setpoints_of : BeamlineDevice → List Str
setpoints_of device = sorted (keep (λ r. ends_with r setpoint_suffix) (Dict.keys device.key_pvs))

abbrev pub readback_role : Str → Str
readback_role role = take (length role - 9) role ++ readback_suffix

abbrev pub add_role : Bool → BeamlineDevice → Planning → Str → Option Str → Planning
add_role include_readbacks device p role none = p
add_role include_readbacks device p role (some setpoint) =
    add include_readbacks p setpoint (Dict.get device.key_pvs (readback_role role)) device.name

-- The roles are keys of the device's key PVs, so the lookup of the setpoint does not fail.
unfoldable pub add_roles : Bool → BeamlineDevice → Planning → List Str → Planning
unfolding add
add_roles include_readbacks device p [] = p
add_roles include_readbacks device p (role ∷ roles) =
    add_roles include_readbacks device
      (add_role include_readbacks device p role (Dict.get device.key_pvs role)) roles

abbrev pub no_convention : BeamlineDevice → Str
no_convention device =
    str "no setpoint convention for its type (devgroup "
    ++ or_else device.devgroup (str "unknown")
    ++ str ") - give its PVs explicitly with pvs"

-- `if not setpoints`
abbrev pub add_setpoints : Bool → BeamlineDevice → Planning → List Str → Planning
add_setpoints include_readbacks device p [] = skip p device.name (no_convention device)
add_setpoints include_readbacks device p (role ∷ roles) =
    add_roles include_readbacks device p (role ∷ roles)

-- `if device is None`
abbrev pub add_found : Bool → Planning → (wanted : Str) → Option BeamlineDevice → Planning
add_found include_readbacks p wanted none =
    skip p wanted (str "not in this beamline's device inventory")
add_found include_readbacks p wanted (some device) =
    add_setpoints include_readbacks device p (setpoints_of device)

-- The body of the loop over the wanted devices.
unfoldable pub add_device : Bool → Dict BeamlineDevice → Planning → (wanted : Str) → Planning
unfolding add_roles skip
add_device include_readbacks by_name p wanted =
    add_found include_readbacks p wanted (Dict.get by_name (lower (strip wanted)))

unfoldable pub add_devices : Bool → Dict BeamlineDevice → Planning → List Str → Planning
unfolding add_device
add_devices include_readbacks by_name p [] = p
add_devices include_readbacks by_name p (wanted ∷ devices) =
    add_devices include_readbacks by_name (add_device include_readbacks by_name p wanted) devices

abbrev pub explicit_owner : Str
explicit_owner = str "(explicit PVs)"

abbrev pub strip_readback : Option Str → Option Str
strip_readback none = none
strip_readback (some []) = none
strip_readback (some (c ∷ r)) = some (strip (c ∷ r))

unfoldable pub add_pvs : Bool → Planning → List PvItem → Result Planning
unfolding add
add_pvs include_readbacks p [] = ok p
add_pvs include_readbacks p (PvItem.pv name ∷ items) =
    add_pvs include_readbacks (add include_readbacks p (strip name) none explicit_owner) items
add_pvs include_readbacks p (PvItem.mapping (some (c ∷ setpoint)) readback ∷ items) =
    add_pvs include_readbacks
      (add include_readbacks p (strip (c ∷ setpoint)) (strip_readback readback) explicit_owner)
      items
add_pvs include_readbacks p (_ ∷ items) = raise (
    argus ErrorClass.validation_error
      (str "Each pvs item is a PV name or {\"setpoint\": ..., \"readback\": ...}."))

module _ {W : Type 0} where
  abbrev pub finish : Bool → List PvItem → Planning → Effect W ConfigurationPlan
  finish include_readbacks pvs p w = elim (add_pvs include_readbacks p pvs) [
    | ok q ↦ (ok q.plan, w)
    | raise e ↦ (raise e, w)
  ]

  abbrev pub add_wanted : Option (Effect W InventoryListing) → List Str → Bool → Effect W Planning
  add_wanted inventory [] include_readbacks = pure no_plan
  add_wanted none (d ∷ devices) include_readbacks = fail (
      argus ErrorClass.validation_error
        (str "No device inventory here: give the PVs explicitly with pvs."))
  add_wanted (some list_inventory) (d ∷ devices) include_readbacks = list_inventory >>= λ listing.
      pure (add_devices include_readbacks (put_all [] listing.devices) no_plan (d ∷ devices))

  unfoldable pub plan_configuration :
      Option (Effect W InventoryListing)
      → (devices : List Str) (include_readbacks : Bool) (pvs : List PvItem)
      → Effect W ConfigurationPlan
  unfolding add_devices add_pvs
  plan_configuration inventory devices include_readbacks pvs =
      add_wanted inventory devices include_readbacks >>= finish include_readbacks pvs
