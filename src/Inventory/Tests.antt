-- ===== src/Inventory/Tests.antt =====
-- A quadrupole whose group comes from its template's defaults.
use argus_mcp_server.Errors.{ok, ◌>>=◌}
use argus_mcp_server.Prelude.{◌↔◌, true, str, [], ◌∷◌, none, some, ◌≡◌, keep}
use argus_mcp_server.Inventory.{
  BeamlineDevice, device_of, RawDevice, RawIoc, Document, RawZones, matches_filters, list_devices,
}
use argus_mcp_server.Inventory.Filters.{list_devices-keep, IsAsked}

abbrev quadrupole : RawDevice
quadrupole = record {
  texts = (str "name", some (str "QUATB001")) ∷ [];
  zones = some (RawZones.one (str "TL"));
  geo = none;
}

abbrev power_supplies : RawIoc
power_supplies = record {
  texts =
      (str "template", some (str "unimag"))
      ∷ (str "name", some (str "ioc-mag"))
      ∷ (str "iocprefix", some (str "BTF:MAG"))
      ∷ [];
  zones = some (RawZones.one (str "BTF"));
  devices = some (quadrupole ∷ []);
}

abbrev unimag : RawIoc
unimag = record {
  texts = (str "devgroup", some (str "mag")) ∷ (str "devtype", some (str "ps")) ∷ [];
  zones = none;
  devices = none;
}

abbrev beamline : Document
beamline = record { ioc_defaults = (str "unimag", unimag) ∷ []; iocs = power_supplies ∷ [] }

abbrev listed_device : BeamlineDevice
listed_device = device_of power_supplies quadrupole

list_devices-keep_example :
    (list_devices (ok beamline) (some (str "vac")) none none ≡ (
      list_devices (ok beamline) none none none >>= λ devices.
      ok (keep (λ d. matches_filters d (some (str "vac")) none none) devices)))
    × ((matches_filters listed_device (some (str "vac")) none none ≡ true)
        ↔ IsAsked listed_device (some (str "vac")) none none)
list_devices-keep_example =
    list_devices-keep (some (str "vac")) none none (ok beamline) listed_device
