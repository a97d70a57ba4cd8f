-- ===== src/Devices.antt =====
-- argus/services/device_service.py: a device assembled from its ChannelFinder channels. The cache
-- around resolve_device is that of Cache. Where two properties or tags agree, the later channel's
-- stays, as in `dict.update`.
pub mod Resolve
pub mod Tests
use argus_mcp_server.Diagnostics.{Device}
use argus_mcp_server.Dict
use argus_mcp_server.Dict.{Dict}
use argus_mcp_server.Effects.{Effect, pure, fail}
use argus_mcp_server.Errors.{Exception, argus, Result, ok, raise, Family, family}
use argus_mcp_server.Operations.{slice_to}
use argus_mcp_server.Prelude.{
  Str, str, ◌++◌, Bool, true, false, List, [], ◌∷◌, Option, none, some, any, map, if◌then◌else◌,
  ◌==◌, str_eq, sorted, keep, not,
}
use argus_mcp_server.Values.{ℤ}

-- argus/providers/channelfinder/models.py; a property has a text, as the class declares.
pub record CfChannel : Type 0 where
  pub name : Str
  pub owner : Option Str
  pub properties : Dict Str
  pub tags : List Str

-- The calls that the service makes: find_channels by name or by the device property, and
-- get_channel.
pub record ChannelFinder (W : Type 0) : Type 0 where
  pub is_configured : Bool
  pub find_by_device : Str → Effect W (List CfChannel)
  pub find_by_name : Str → Effect W (List CfChannel)
  pub get_channel : Str → Effect W (Option CfChannel)

abbrev pub is_channelfinder_error : Exception → Bool
is_channelfinder_error (argus class message) = elim (family class) [
  | Family.channelfinder ↦ true
  | _ ↦ false
]
is_channelfinder_error _ = false

unfoldable pub merge_properties : Dict Str → List CfChannel → Dict Str
merge_properties merged [] = merged
merge_properties merged (c ∷ cs) = merge_properties (Dict.update merged c.properties) cs

-- The set of tags, each once.
unfoldable pub merge_tags : List Str → List Str → List Str
merge_tags tags [] = tags
merge_tags tags (t ∷ ts) =
    if any (λ u. u == t) tags then merge_tags tags ts else merge_tags (tags ++ t ∷ []) ts

unfoldable pub all_tags : List Str → List CfChannel → List Str
unfolding merge_tags
all_tags tags [] = tags
all_tags tags (c ∷ cs) = all_tags (merge_tags tags c.tags) cs

-- `owner = owner or channel.owner`
abbrev pub or_owner : Option Str → Option Str → Option Str
or_owner none next = next
or_owner (some []) next = next
or_owner (some (c ∷ o)) next = some (c ∷ o)

unfoldable pub first_owner : Option Str → List CfChannel → Option Str
first_owner owner [] = owner
first_owner owner (c ∷ cs) = first_owner (or_owner owner c.owner) cs

-- `merged_properties.get(cf_key)` if it is not None, and else the device's own value.
abbrev pub known : Dict Str → Str → Option Str → Option Str
known properties cf_key own = elim (Dict.get properties cf_key) [
  | none ↦ own
  | some value ↦ some value
]

-- `pv_names[0] if pv_names else None`
abbrev pub first_name : List CfChannel → Option Str
first_name [] = none
first_name (c ∷ cs) = some c.name

abbrev pub refs_of : Dict Str → List Str
refs_of properties = elim (known properties (str "docRef") none) [ none ↦ [] | some r ↦ r ∷ [] ]

unfoldable pub build_device : Str → List CfChannel → Device
unfolding merge_properties all_tags first_owner
build_device name channels =
    let properties = merge_properties [] channels in
    record {
      name = name;
      device_class = known properties (str "deviceClass") none;
      pv_names = map (λ (c : CfChannel). c.name) channels;
      primary_pv = first_name channels;
      ioc_name = known properties (str "iocName") none;
      pod_name = known properties (str "k8sPod") none;
      namespace = known properties (str "k8sNamespace") none;
      argocd_app = known properties (str "argocdApp") none;
      git_repo = known properties (str "gitRepo") none;
      rack = known properties (str "rack") none;
      owner = known properties (str "owner") (first_owner none channels);
      network_location = known properties (str "networkLocation") none;
      documentation_refs = refs_of properties;
      tags = sorted (all_tags [] channels);
      properties = properties;
    }

-- A device that is its name only: a bare PV.
abbrev pub bare_device : Str → Device
bare_device name = record {
  name = name;
  device_class = none;
  pv_names = name ∷ [];
  primary_pv = some name;
  ioc_name = none;
  pod_name = none;
  namespace = none;
  argocd_app = none;
  git_repo = none;
  rack = none;
  owner = none;
  network_location = none;
  documentation_refs = [];
  tags = [];
  properties = [];
}

abbrev pub from_channels : Str → List CfChannel → Device
from_channels name [] = bare_device name
from_channels name (c ∷ cs) = build_device name (c ∷ cs)

-- `channel.properties.get("device", channel.name)`
abbrev pub device_name : CfChannel → Str
device_name channel = elim (Dict.get channel.properties (str "device")) [
  | none ↦ channel.name
  | some value ↦ value
]

unfoldable pub group : Dict (List CfChannel) → List CfChannel → Dict (List CfChannel)
group by_device [] = by_device
group by_device (c ∷ cs) =
    group
      (Dict.put by_device (device_name c)
        ((elim (Dict.get by_device (device_name c)) [ none ↦ [] | some found ↦ found ]) ++ c ∷ []))
      cs

module _ {W : Type 0} where
  -- `except ChannelFinderError`: the given value instead.
  abbrev pub recover : {A : Type 0} → A → Result A × W → Result A × W
  recover a (ok b, w) = (ok b, w)
  recover a (raise e, w) = if is_channelfinder_error e then (ok a, w) else (raise e, w)

  -- `[channel] if channel else []`
  abbrev pub from_channel : Str → Result (Option CfChannel) × W → Result Device × W
  from_channel name (ok none, w) = (ok (from_channels name []), w)
  from_channel name (ok (some c), w) = (ok (from_channels name (c ∷ [])), w)
  from_channel name (raise e, w) = (raise e, w)

  abbrev pub from_found : ChannelFinder W → Str → Result (List CfChannel) × W → Result Device × W
  from_found cf name (raise e, w) = (raise e, w)
  from_found cf name (ok [], w) = from_channel name (recover none (cf.get_channel name w))
  from_found cf name (ok (c ∷ cs), w) = (ok (from_channels name (c ∷ cs)), w)

  unfoldable pub resolve_device_uncached : ChannelFinder W → Str → Effect W Device
  unfolding build_device
  resolve_device_uncached cf name w =
      if cf.is_configured
      then from_found cf name (recover [] (cf.find_by_device name w))
      else (ok (bare_device name), w)

  abbrev pub devices_of : ℤ → Result (List CfChannel) × W → Result (List Device) × W
  devices_of limit (raise e, w) = (raise e, w)
  devices_of limit (ok channels, w) =
      (ok (map (λ e. build_device e.0 e.1) (group [] (slice_to channels limit))), w)

  unfoldable pub search_devices : ChannelFinder W → Str → ℤ → Effect W (List Device)
  unfolding group build_device
  search_devices cf query limit w =
      if cf.is_configured
      then devices_of limit (recover [] (cf.find_by_name query w))
      else (ok [], w)
