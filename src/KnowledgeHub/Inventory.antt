-- ===== src/KnowledgeHub/Inventory.antt =====
-- argus/services/knowledge_hub_inventory_service.py: the device records of the hub's workspaces, page
-- by page, as the devices of the inventory. An answer is what the hub's tool gives, with the keys that
-- the service reads; `none` stands for an answer that is no object.
use argus_mcp_server.Dict
use argus_mcp_server.Dict.{Dict}
use argus_mcp_server.Effects.{Effect, pure, ◌>>=◌}
use argus_mcp_server.Errors.{Result, ok, raise}
use argus_mcp_server.Inventory.{
  BeamlineDevice, InventoryListing, RawZones, matches_filters, or_none, first_of, classify,
}
use argus_mcp_server.Inventory.DeviceTypes.{DeviceTypeProfile, get_profile, key_pvs_for_prefix}
use argus_mcp_server.Prelude.{
  ℕ, zero, suc, ◌-◌, ◌*◌, Str, str, ◌++◌, Bool, true, false, not, ◌&&◌, ◌||◌, List, [], ◌∷◌, Option,
  none, some, any, map, keep, length, take, if◌then◌else◌, ◌==◌, str_eq, ltb, leb, nonempty, truthy,
  or_else, ends_with, show,
}
use argus_mcp_server.Values.{Float}
use argus_mcp_server.KnowledgeHub.{for_each_workspace}

pub record Attributes : Type 0 where
  pub texts : Dict (Option Str)
  pub zones : Option RawZones
  pub geo : Option Float

pub record HubObject : Type 0 where
  pub uid : Str
  pub name : Option Str
  pub attributes : Option Attributes
  pub link : Option Str
  pub url : Option Str

pub record Page : Type 0 where
  pub unknown_types : Bool
  pub total : ℕ
  pub objects : List HubObject

abbrev pub control_device_type : Str
control_device_type = str "Control Device"

abbrev pub page_size : ℕ
page_size = 100

abbrev pub max_pages : ℕ
max_pages = 50

-- The local variables of the loop: the objects found, and the total that the last page said.
pub record Paging : Type 0 where
  pub objects : List HubObject
  pub total : ℕ

-- `o.get("uid") and o["uid"] not in seen`, over the objects of one page: `seen` grows after it.
abbrev pub fresh_of : List HubObject → List HubObject → List HubObject
fresh_of seen objects =
    keep (λ (o : HubObject). nonempty o.uid && not (any (λ (s : HubObject). s.uid == o.uid) seen))
      objects

module _ (repr : Str → Str) (workspace : Str) where
  abbrev pub not_imported : Str
  not_imported =
      str "Workspace "
      ++ repr workspace
      ++ str " has no "
      ++ repr control_device_type
      ++ str " type: its EPIK8s configuration has not been imported into the hub."

  abbrev pub truncated : Paging → Str
  truncated p =
      str "Workspace "
      ++ repr workspace
      ++ str ": only "
      ++ show (length p.objects)
      ++ str " of "
      ++ show p.total
      ++ str
          " control devices could be listed (the hub does not support paging search_objects with "
      ++ str "`offset`; upgrade the hub)."

  -- After the loop.
  unfoldable pub paged : Paging → List HubObject × List Str
  paged p = (p.objects, if ltb (length p.objects) p.total then truncated p ∷ [] else [])

  module _ {W : Type 0} (search : (offset : ℕ) → Effect W (Option Page)) where
    -- The rest of the loop's body for a page whose fresh objects are known.
    abbrev pub extend_page :
        (Paging → Effect W (List HubObject × List Str))
        → Paging
        → ℕ
        → List HubObject
        → Effect W (List HubObject × List Str)
    extend_page next p total [] = pure (paged (record { objects = p.objects; total = total }))
    extend_page next p total (o ∷ fresh) =
        let q : Paging = record { objects = p.objects ++ o ∷ fresh; total = total } in
        if leb total (length q.objects) then pure (paged q) else next q

    abbrev pub take_page :
        (Paging → Effect W (List HubObject × List Str))
        → Paging
        → Option Page
        → Effect W (List HubObject × List Str)
    take_page next p none = pure (paged p)
    take_page next p (some page) =
        if page.unknown_types
        then pure ([], not_imported ∷ [])
        else extend_page next p page.total (fresh_of p.objects page.objects)

    -- `left` pages are left of the range.
    unfoldable pub pages : (left : ℕ) → Paging → Effect W (List HubObject × List Str)
    unfolding paged
    pages zero p = pure (paged p)
    pages (suc left) p = search ((max_pages - suc left) * page_size) >>= take_page (pages left) p

    unfoldable pub all_control_devices : Effect W (List HubObject × List Str)
    unfolding pages
    all_control_devices = pages max_pages (record { objects = []; total = 0 })

-- `if not value: return ["ALL"]`
abbrev pub hub_zones : Option RawZones → List Str
hub_zones none = str "ALL" ∷ []
hub_zones (some RawZones.null) = str "ALL" ∷ []
hub_zones (some (RawZones.one [])) = str "ALL" ∷ []
hub_zones (some (RawZones.one (c ∷ z))) = (c ∷ z) ∷ []
hub_zones (some (RawZones.many [])) = str "ALL" ∷ []
hub_zones (some (RawZones.many (z ∷ zs))) = z ∷ zs

-- The prefix without the device's own part.
unfoldable pub iocprefix_of : Option Str → Str → Option Str
unfolding ends_with
iocprefix_of none name = none
iocprefix_of (some []) name = none
iocprefix_of (some (c ∷ pv_prefix)) name =
    if ends_with (c ∷ pv_prefix) (str ":" ++ name)
    then some (take (length (c ∷ pv_prefix) - length (str ":" ++ name)) (c ∷ pv_prefix))
    else some (c ∷ pv_prefix)

-- `attributes.get(key) or None`
abbrev pub attribute : Dict (Option Str) → Str → Option Str
attribute texts key = elim (Dict.get texts key) [
  | none ↦ none
  | some value? ↦ elim value? [ none ↦ none | some value ↦ or_none value ]
]

abbrev pub key_pvs_of_prefix : Option DeviceTypeProfile → Option Str → Dict Str
key_pvs_of_prefix none pv_prefix = []
key_pvs_of_prefix (some profile) pv_prefix = key_pvs_for_prefix profile pv_prefix

abbrev pub no_attributes : Attributes
no_attributes = record { texts = []; zones = none; geo = none }

unfoldable pub to_device : HubObject → (workspace : Str) → BeamlineDevice
unfolding iocprefix_of
to_device o workspace =
    let attributes : Attributes = elim o.attributes [ none ↦ no_attributes | some a ↦ a ] in
    let name = or_else o.name [] in
    let devgroup = attribute attributes.texts (str "system") in
    let pv_prefix =
      first_of (attribute attributes.texts (str "pv_prefix"))
        (attribute attributes.texts (str "pv")) in
    let iocprefix = iocprefix_of pv_prefix name in
    let profile = get_profile devgroup in
    record {
      name = name;
      ioc_name = or_else (attribute attributes.texts (str "ioc")) [];
      iocprefix = iocprefix;
      devgroup = devgroup;
      devtype = attribute attributes.texts (str "devtype");
      devfunc =
          classify profile (attribute attributes.texts (str "function")) name
            (or_else iocprefix []);
      zones = hub_zones attributes.zones;
      geo = attributes.geo;
      asset = attribute attributes.texts (str "inventory_url");
      opi = none;
      template = none;
      key_pvs = key_pvs_of_prefix profile pv_prefix;
      workspace = some workspace;
      link = first_of (attribute ((str "link", o.link) ∷ []) (str "link")) o.url;
    }

module _ {W : Type 0} (get_object : (workspace uid : Str) → Effect W (Option Attributes)) where
  -- Attributes are asked for where a record came without them.
  abbrev pub with_attributes : HubObject → Option Attributes → HubObject
  with_attributes o fetched = record {
    uid = o.uid;
    name = o.name;
    attributes = some (elim fetched [ none ↦ no_attributes | some a ↦ a ]);
    link = o.link;
    url = o.url;
  }

  abbrev pub complete : Str → HubObject → Effect W HubObject
  complete workspace o = elim o.attributes [
    | some a ↦ pure o
    | none ↦ get_object workspace o.uid >>= λ fetched. pure (with_attributes o fetched)
  ]

  unfoldable pub complete_all : Str → List HubObject → Effect W (List HubObject)
  complete_all workspace [] = pure []
  complete_all workspace (o ∷ objects) =
      complete workspace o >>= λ done. complete_all workspace objects >>= λ rest. pure (done ∷ rest)

  unfoldable pub workspace_devices :
      (repr : Str → Str)
      → (workspace : Str) → (ℕ → Effect W (Option Page))
      → Effect W (List (Str × BeamlineDevice) × List Str)
  unfolding all_control_devices complete_all to_device
  workspace_devices repr workspace search = all_control_devices repr workspace search >>= λ found.
      complete_all workspace found.0 >>= λ objects.
      pure (map (λ (o : HubObject). (o.uid, to_device o workspace)) objects, found.1)

-- The records of the workspaces in order, each uid once, of those that match.
module _ (devgroup devfunc zone : Option Str) where
  abbrev pub matches : Str × BeamlineDevice → Bool
  matches e = matches_filters e.1 devgroup devfunc zone

  -- The loop over one workspace's records, with the uids that were seen before it: those seen after
  -- it, and the records listed.
  unfoldable pub list_new :
      List Str → List (Str × BeamlineDevice) → List Str × List (Str × BeamlineDevice)
  unfolding matches_filters
  list_new seen [] = (seen, [])
  list_new seen (e ∷ rest) = elim (any (λ u. u == e.0) seen) [
    | true ↦ list_new seen rest
    | false ↦
        let (seen', listed) = list_new (e.0 ∷ seen) rest in
        (seen', if matches e then e ∷ listed else listed)
  ]

  -- The loop over the workspaces, with the notes of those that answered.
  unfoldable pub list_all :
      Dict (List (Str × BeamlineDevice) × List Str)
      → List Str
      → List Str
      → List (Str × BeamlineDevice) × List Str
  unfolding list_new
  list_all results seen [] = ([], [])
  list_all results seen (ws ∷ workspaces) = elim (Dict.get results ws) [
    | none ↦ list_all results seen workspaces
    | some (records, notes) ↦
        let (seen', listed) = list_new seen records in
        let (more, more_notes) = list_all results seen' workspaces in
        (listed ++ more, notes ++ more_notes)
  ]

  abbrev pub error_notes : (repr : Str → Str) → Dict Str → List Str
  error_notes repr errors =
      map (λ e. str "Workspace " ++ repr e.0 ++ str " could not be read: " ++ e.1) errors

  -- `repo or (path and path != "deploy/values.yaml") or (ref and ref != "HEAD")`
  abbrev pub ignored_notes : (repo path ref : Option Str) → List Str
  ignored_notes repo path ref =
      if truthy repo
        || truthy path && not (or_else path [] == str "deploy/values.yaml")
        || truthy ref && not (or_else ref [] == str "HEAD")
      then (str "repo/path/ref were ignored: this server reads the device inventory from the ARGUS "
          ++ str "Knowledge Hub (the last imported revision of each beamline's configuration), not "
          ++ str "from git.")
        ∷ []
      else []

  abbrev pub listing :
      (repr : Str → Str)
      → List Str
      → List Str
      → Dict (List (Str × BeamlineDevice) × List Str) × Dict Str
      → InventoryListing
  listing repr ignored workspaces (results, errors) =
      let (records, notes) = list_all results [] workspaces in
      record {
        source = str "knowledge_hub";
        devices = map (λ e. e.1) records;
        notes = ignored ++ error_notes repr errors ++ notes;
      }

  -- `ids` is what the client's workspace_ids answers, and `fn` what each workspace's devices are.
  unfoldable pub list_inventory :
      (repr : Str → Str) (repo path ref : Option Str) (ids : Result (List Str))
      (fn : Str → Result (List (Str × BeamlineDevice) × List Str))
      → Result InventoryListing
  unfolding for_each_workspace list_all
  list_inventory repr repo path ref (raise e) fn = raise e
  list_inventory repr repo path ref (ok workspaces) fn = elim (for_each_workspace workspaces fn) [
    | raise e ↦ raise e
    | ok answers ↦ ok (listing repr (ignored_notes repo path ref) workspaces answers)
  ]
