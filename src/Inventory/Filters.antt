-- ===== src/Inventory/Filters.antt =====
-- What the filters select, and what the merge and the zones keep.
use argus_mcp_server.Dict
use argus_mcp_server.Dict.{Dict, get-put}
use argus_mcp_server.Errors.{Result, ok, raise, ◌>>=◌}
use argus_mcp_server.Prelude.{
  Str, str, Bool, true, false, List, [], ◌∷◌, ◌++◌, Option, none, some, any, keep, ◌==◌, str_eq,
  str_beq_iff, ◌≡◌, ◌≢◌, refl, ap, arith, keep-append, All, nonempty, ◌↔◌, ◌⊎◌, inl, inr,
  Bool-cases,
}
use argus_mcp_server.Inventory.{
  BeamlineDevice, RawZones, one, RawDevice, RawIoc, Document, matches_filters, list_ioc, list_iocs,
  list_devices, device_of, merge_ioc_defaults, device_zones, normalize_zones, first_of, template_of,
  devices_of, outside, differs,
}

matches_no_filter : (device : BeamlineDevice) → matches_filters device none none none ≡ true
unfolding matches_filters
matches_no_filter device = refl

-- A filter that is given and not empty, and what it asks.
abbrev pub Given : Option Str → (Str → Type 0) → Type 0
Given none P = Unit
Given (some []) P = Unit
Given (some (c ∷ f)) P = P (c ∷ f)

abbrev pub Mem : Str → List Str → Type 0
Mem z [] = ⊥
Mem z (y ∷ zones) = (y ≡ z) ⊎ Mem z zones

-- A device is asked for: its group and its function are the given ones, and it stands in the given
-- zone or in "ALL".
abbrev pub IsAsked : BeamlineDevice → (devgroup devfunc zone : Option Str) → Type 0
IsAsked device devgroup devfunc zone =
    Given devgroup (λ g. device.devgroup ≡ some g)
    × Given devfunc (λ f. device.devfunc ≡ some f)
    × Given zone (λ z. Mem z device.zones ⊎ Mem (str "ALL") device.zones)

differs-Given :
    (filter value : Option Str)
    → (differs filter value ≡ false → Given filter (λ f. value ≡ some f))
      × (Given filter (λ f. value ≡ some f) → differs filter value ≡ false)
differs-Given none value = (λ h. tt, λ h. refl)
differs-Given (some []) value = (λ h. tt, λ h. refl)
differs-Given (some (c ∷ f)) none = (λ h. absurd (ground arith), λ h. absurd (ground arith))
differs-Given (some (c ∷ f)) (some v) =
    (λ h. ground (arith, h, str_beq_iff v (c ∷ f)), λ h. ground (arith, h, str_beq_iff v (c ∷ f)))

stands-Mem :
    (z : Str) (zones : List Str)
    → (any (λ y. y == z) zones ≡ true → Mem z zones)
      × (Mem z zones → any (λ y. y == z) zones ≡ true)
stands-Mem z [] = (λ h. absurd (ground arith), λ h. absurd h)
stands-Mem z (y ∷ zones) = (
  λ h. elim (Bool-cases (y == z)) [
    | inl same ↦ inl (ground (arith, same, str_beq_iff y z))
    | inr other ↦ inr ((stands-Mem z zones).0 (ground (arith, h, other)))
  ],
  λ h. elim h [
    | inl same ↦ ground (arith, same, str_beq_iff y z)
    | inr there ↦ ground (arith, (stands-Mem z zones).1 there)
  ],
)

outside-Given :
    (zone : Option Str) (zones : List Str)
    → (outside zone zones ≡ false → Given zone (λ z. Mem z zones ⊎ Mem (str "ALL") zones))
      × (Given zone (λ z. Mem z zones ⊎ Mem (str "ALL") zones) → outside zone zones ≡ false)
outside-Given none zones = (λ h. tt, λ h. refl)
outside-Given (some []) zones = (λ h. tt, λ h. refl)
outside-Given (some (c ∷ z)) zones = (
  λ h. elim (Bool-cases (any (λ y. y == c ∷ z) zones)) [
    | inl here ↦ inl ((stands-Mem (c ∷ z) zones).0 here)
    | inr not_here ↦ inr ((stands-Mem (str "ALL") zones).0 (ground (arith, h, not_here)))
  ],
  λ h. elim h [
    | inl here ↦ ground (arith, (stands-Mem (c ∷ z) zones).1 here)
    | inr all ↦ ground (arith, (stands-Mem (str "ALL") zones).1 all)
  ],
)

matches_filters-IsAsked :
    (device : BeamlineDevice) (devgroup devfunc zone : Option Str)
    → (matches_filters device devgroup devfunc zone ≡ true → IsAsked device devgroup devfunc zone)
      × (IsAsked device devgroup devfunc zone → matches_filters device devgroup devfunc zone ≡ true)
unfolding matches_filters
matches_filters-IsAsked device devgroup devfunc zone =
    let group = differs-Given devgroup device.devgroup in
    let func = differs-Given devfunc device.devfunc in
    let zoned = outside-Given zone device.zones in
    (
      λ h. (group.0 (ground (arith, h)), func.0 (ground (arith, h)), zoned.0 (ground (arith, h))),
      λ h. ground (arith, group.1 h.0, func.1 h.1, zoned.1 h.2),
    )

module _ (devgroup devfunc zone : Option Str) where
  abbrev selected : List BeamlineDevice → List BeamlineDevice
  selected = keep (λ d. matches_filters d devgroup devfunc zone)

  list_ioc-keep :
      (ioc : RawIoc) (devs : List RawDevice)
      → list_ioc devgroup devfunc zone ioc devs ≡ selected (list_ioc none none none ioc devs)
  unfolding list_ioc
  list_ioc-keep ioc [] = refl
  list_ioc-keep ioc (dev ∷ devs) =
      ground (arith, list_ioc-keep ioc devs, matches_no_filter (device_of ioc dev))

  list_iocs-keep :
      (ioc_defaults : Dict RawIoc) (iocs : List RawIoc)
      → list_iocs devgroup devfunc zone ioc_defaults iocs
        ≡ selected (list_iocs none none none ioc_defaults iocs)
  unfolding list_iocs
  list_iocs-keep ioc_defaults [] = refl
  list_iocs-keep ioc_defaults (raw_ioc ∷ iocs) =
      let ioc = merge_ioc_defaults ioc_defaults raw_ioc in
      ground (
        arith,
        list_iocs-keep ioc_defaults iocs,
        list_ioc-keep ioc (devices_of none none none ioc),
        keep-append (λ d. matches_filters d devgroup devfunc zone)
            (list_ioc none none none ioc (devices_of none none none ioc))
            (list_iocs none none none ioc_defaults iocs),
      )

  -- The filters only select: a filtered listing is the unfiltered one less the devices that do not
  -- match, in the same order and with the same fields, and it fails exactly where that fails. A device
  -- matches exactly where its group and its function are the given ones, and it stands in the given
  -- zone or in "ALL"; a filter that is not given, or empty, asks nothing.
  pub list_devices-keep :
      (file : Result Document) (device : BeamlineDevice)
      → (list_devices file devgroup devfunc zone
          ≡ (list_devices file none none none >>= λ devices. ok (selected devices)))
        × ((matches_filters device devgroup devfunc zone ≡ true)
            ↔ IsAsked device devgroup devfunc zone)
  unfolding list_devices
  list_devices-keep (ok document) device = (
    ap ok (list_iocs-keep document.ioc_defaults document.iocs),
    matches_filters-IsAsked device devgroup devfunc zone,
  )
  list_devices-keep (raise e) device = (refl, matches_filters-IsAsked device devgroup devfunc zone)

  list_ioc_named :
      (ioc : RawIoc) (devs : List RawDevice)
      → All (λ d. nonempty d.name ≡ true) (list_ioc devgroup devfunc zone ioc devs)
  unfolding list_ioc
  list_ioc_named ioc [] = tt
  list_ioc_named ioc (dev ∷ devs) = ground (arith, list_ioc_named ioc devs)

get-update :
    (d e : Dict (Option Str)) (k : Str)
    → Dict.IsDict e
    → Dict.get (Dict.update d e) k ≡ first_of (Dict.get e k) (Dict.get d k)
unfolding Dict.update Dict.get
get-update d [] k h = refl
get-update d ((j, v) ∷ e) k h = ground (
  arith,
  get-update (Dict.put d j v) e k h.1,
  get-put d j k v,
  Dict.get_of_has e j h.0,
  str_beq_iff j k,
)

-- An IOC whose template has defaults gets, for every key, its own value where it has the key, also
-- when that value is null, and the template's otherwise.
get-merge_ioc_defaults :
    (ioc_defaults : Dict RawIoc) (ioc defaults : RawIoc) (key : Str)
    → Dict.IsDict ioc.texts
    → nonempty (template_of ioc) ≡ true
    → Dict.get ioc_defaults (template_of ioc) ≡ some defaults
    → (Dict.get (merge_ioc_defaults ioc_defaults ioc).texts key
        ≡ first_of (Dict.get ioc.texts key) (Dict.get defaults.texts key))
      × ((merge_ioc_defaults ioc_defaults ioc).zones ≡ first_of ioc.zones defaults.zones)
      × ((merge_ioc_defaults ioc_defaults ioc).devices ≡ first_of ioc.devices defaults.devices)
unfolding merge_ioc_defaults
get-merge_ioc_defaults ioc_defaults ioc defaults key h named found =
    rw (named, found) (get-update defaults.texts ioc.texts key h, refl, refl)

abbrev stands_in : Str → List Str → Bool
stands_in z zones = any (λ y. y == z) zones

stands_in-append : (z : Str) (zones : List Str) → stands_in z (zones ++ z ∷ []) ≡ true
stands_in-append z [] = ground (arith, str_beq_iff z z)
stands_in-append z (x ∷ zones) = ground (arith, stands_in-append z zones)

stands_in-device_zones :
    (ioc : RawIoc) (dev : RawDevice) (z : Str) (own : Option RawZones)
    → ioc.zones ≡ some (one z)
    → dev.zones ≡ own
    → z ≢ str "ALL"
    → stands_in z (device_zones ioc dev) ≡ true
unfolding device_zones
stands_in-device_zones ioc dev z none e f other = ground (arith, e, f, str_beq_iff z z)
stands_in-device_zones ioc dev z (some own) e f other =
    ground (arith, e, f, other, str_beq_iff z (str "ALL"), stands_in-append z (normalize_zones own))

inside : (z : Str) (zones : List Str) → stands_in z zones ≡ true → outside (some z) zones ≡ false
inside [] zones h = refl
inside (c ∷ z) zones h = ground (arith, h)

-- A device of an IOC with one zone other than "ALL" is found in that zone, also when it lists zones
-- of its own.
matches_filters-device_zones :
    (ioc : RawIoc) (dev : RawDevice) (z : Str)
    → ioc.zones ≡ some (one z)
    → z ≢ str "ALL"
    → matches_filters (device_of ioc dev) none none (some z) ≡ true
unfolding matches_filters device_of
matches_filters-device_zones ioc dev z e other = ground (
  arith,
  inside z (device_zones ioc dev) (stands_in-device_zones ioc dev z dev.zones e refl other),
)
