-- ===== src/Inventory.antt =====
-- argus/services/beamline_inventory_service.py: the devices of a beamline's deploy document, merged
-- with the defaults of their IOC's template, classified by their group's profile, and filtered.
-- The document is what the YAML parser gives, with the keys that the service reads; a key's value
-- may be absent, null or a text. An `iocprefix` or `name` of an IOC that is null is read as empty.
pub mod DeviceTypes
pub mod Filters
pub mod Classify
pub mod Tests
use argus_mcp_server.Dict
use argus_mcp_server.Dict.{Dict}
use argus_mcp_server.Errors.{Result, ok, raise, ◌>>=◌}
use argus_mcp_server.Prelude.{
  Str, str, Bool, true, false, not, ◌&&◌, List, [], ◌∷◌, ◌++◌, Option, none, some, any, keep,
  truthy, or_else, if◌then◌else◌, ◌==◌, str_eq, str_beq,
}
use argus_mcp_server.Values.{Float}
use argus_mcp_server.Inventory.DeviceTypes.{DeviceTypeProfile, get_profile, derive_devfunc, key_pvs}

pub record BeamlineDevice : Type 0 where
  pub name : Str
  pub ioc_name : Str
  pub iocprefix : Option Str
  pub devgroup : Option Str
  pub devtype : Option Str
  pub devfunc : Option Str
  pub zones : List Str
  pub geo : Option Float
  pub asset : Option Str
  pub opi : Option Str
  pub template : Option Str
  pub key_pvs : Dict Str
  pub workspace : Option Str
  pub link : Option Str

pub record InventoryListing : Type 0 where
  pub source : Str
  pub devices : List BeamlineDevice
  pub notes : List Str

-- The value of a `zones` key.
pub data RawZones : Type 0 where
  null : RawZones
  one : Str → RawZones
  many : List Str → RawZones

-- A mapping of the document: its text or null values, and the keys of another type.
pub record RawDevice : Type 0 where
  pub texts : Dict (Option Str)
  pub zones : Option RawZones
  pub geo : Option Float

pub record RawIoc : Type 0 where
  pub texts : Dict (Option Str)
  pub zones : Option RawZones
  pub devices : Option (List RawDevice)

-- `d.get(key)`, and `d.get(key, default)` for a nullable value.
abbrev pub get_text : Dict (Option Str) → Str → Option Str
get_text d key = elim (Dict.get d key) [ none ↦ none | some v ↦ v ]

abbrev pub get_text_or : Dict (Option Str) → Str → Option Str → Option Str
get_text_or d key default = elim (Dict.get d key) [ none ↦ default | some v ↦ v ]

-- `filter and device.field != filter`
abbrev pub differs : Option Str → Option Str → Bool
differs none value = false
differs (some []) value = false
differs (some (c ∷ f)) none = true
differs (some (c ∷ f)) (some v) = not (v == c ∷ f)

abbrev pub outside : Option Str → List Str → Bool
outside none zones = false
outside (some []) zones = false
outside (some (c ∷ z)) zones =
    not (any (λ y. y == c ∷ z) zones) && not (any (λ y. y == str "ALL") zones)

unfoldable pub matches_filters : BeamlineDevice → (devgroup devfunc zone : Option Str) → Bool
matches_filters device devgroup devfunc zone =
    if differs devgroup device.devgroup
    then false
    else (if differs devfunc device.devfunc
        then false
        else (if outside zone device.zones then false else true))

-- Where a template has an entry without keys, `not defaults` keeps the IOC as it is; so does merging.
abbrev pub first_of {ℓ} : {A : Type ℓ} → Option A → Option A → Option A
first_of none b = b
first_of (some a) b = some a

abbrev pub merged : RawIoc → RawIoc → RawIoc
merged defaults ioc = record {
  texts = Dict.update defaults.texts ioc.texts;
  zones = first_of ioc.zones defaults.zones;
  devices = first_of ioc.devices defaults.devices;
}

-- `ioc.get("template") or ioc.get("devtype") or ""`
abbrev pub template_of : RawIoc → Str
template_of ioc =
    or_else (get_text ioc.texts (str "template")) (or_else (get_text ioc.texts (str "devtype")) [])

unfoldable pub merge_ioc_defaults : Dict RawIoc → RawIoc → RawIoc
merge_ioc_defaults ioc_defaults ioc =
    if truthy (some (template_of ioc))
    then (elim (Dict.get ioc_defaults (template_of ioc)) [
      | none ↦ ioc
      | some defaults ↦ merged defaults ioc
    ])
    else ioc

abbrev pub normalize_zones : RawZones → List Str
normalize_zones null = str "ALL" ∷ []
normalize_zones (one z) = z ∷ []
normalize_zones (many zs) = zs

-- `ioc.get("zones", "ALL")`
abbrev pub ioc_zones : Option RawZones → RawZones
ioc_zones none = one (str "ALL")
ioc_zones (some z) = z

abbrev add_zone : RawZones → List Str → List Str
add_zone (one z) zones =
    if not (z == str "ALL") && not (any (λ y. y == z) zones) then zones ++ z ∷ [] else zones
add_zone _ zones = zones

unfoldable pub device_zones : RawIoc → RawDevice → List Str
device_zones ioc dev = elim dev.zones [
  | none ↦ normalize_zones (ioc_zones ioc.zones)
  | some own ↦ add_zone (ioc_zones ioc.zones) (normalize_zones own)
]

abbrev pub classify : Option DeviceTypeProfile → Option Str → Str → Str → Option Str
classify profile? (some (c ∷ own)) name iocprefix = some (c ∷ own)
classify none _ name iocprefix = none
classify (some profile) _ name iocprefix = derive_devfunc profile name iocprefix

abbrev key_pvs_of : Option DeviceTypeProfile → Str → Str → Dict Str
key_pvs_of none iocprefix name = []
key_pvs_of (some profile) iocprefix name = key_pvs profile iocprefix name

-- `x or None`
abbrev pub or_none : Str → Option Str
or_none [] = none
or_none (c ∷ s) = some (c ∷ s)

-- `dev.get("alias") or dev.get("name")`, the empty text where neither is given.
abbrev pub name_of : RawDevice → Str
name_of dev =
    or_else (get_text dev.texts (str "alias")) (or_else (get_text dev.texts (str "name")) [])

-- The body of the inner loop up to the filter, for an IOC that is merged already.
unfoldable pub device_of : RawIoc → RawDevice → BeamlineDevice
unfolding device_zones
device_of ioc dev =
    let iocprefix = or_else (get_text ioc.texts (str "iocprefix")) [] in
    let devgroup = get_text ioc.texts (str "devgroup") in
    let profile = get_profile devgroup in
    record {
      name = name_of dev;
      ioc_name = or_else (get_text ioc.texts (str "name")) [];
      iocprefix = or_none iocprefix;
      devgroup = devgroup;
      devtype = get_text_or dev.texts (str "devtype") (get_text ioc.texts (str "devtype"));
      devfunc = classify profile (get_text dev.texts (str "devfunc")) (name_of dev) iocprefix;
      zones = device_zones ioc dev;
      geo = dev.geo;
      asset = get_text_or dev.texts (str "asset") (get_text ioc.texts (str "asset"));
      opi = get_text_or dev.texts (str "opi") (get_text ioc.texts (str "opi"));
      template = get_text ioc.texts (str "template");
      key_pvs = key_pvs_of profile iocprefix (name_of dev);
      workspace = none;
      link = none;
    }

module _ (devgroup devfunc zone : Option Str) where
  unfoldable pub list_ioc : RawIoc → List RawDevice → List BeamlineDevice
  unfolding device_of matches_filters
  list_ioc ioc [] = []
  list_ioc ioc (dev ∷ devs) =
      let rest = list_ioc ioc devs in
      let device = device_of ioc dev in
      if truthy (some (name_of dev)) && matches_filters device devgroup devfunc zone
      then device ∷ rest
      else rest

  -- `ioc.get("devices", [])`
  abbrev devices_of : RawIoc → List RawDevice
  devices_of ioc = elim ioc.devices [ none ↦ [] | some devices ↦ devices ]

  unfoldable pub list_iocs : Dict RawIoc → List RawIoc → List BeamlineDevice
  unfolding list_ioc merge_ioc_defaults
  list_iocs ioc_defaults [] = []
  list_iocs ioc_defaults (raw_ioc ∷ iocs) =
      let ioc = merge_ioc_defaults ioc_defaults raw_ioc in
      list_ioc ioc (devices_of ioc) ++ list_iocs ioc_defaults iocs

-- The parsed document: its defaults by template, and its IOCs in order, whether they stand in a list
-- or under their names.
pub record Document : Type 0 where
  pub ioc_defaults : Dict RawIoc
  pub iocs : List RawIoc

-- The file is read and parsed by the knowledge service and the YAML parser, which may raise.
unfoldable pub list_devices :
    Result Document → (devgroup devfunc zone : Option Str) → Result (List BeamlineDevice)
unfolding list_iocs
list_devices file devgroup devfunc zone =
    file >>= λ document. ok (list_iocs devgroup devfunc zone document.ioc_defaults document.iocs)

unfoldable pub list_inventory :
    Result Document → (devgroup devfunc zone : Option Str) → Result InventoryListing
unfolding list_devices
list_inventory file devgroup devfunc zone = list_devices file devgroup devfunc zone >>= λ devices.
    ok (record { source = str "yaml"; devices = devices; notes = [] })
