-- ===== src/Inventory/Classify.antt =====
-- How a profile classifies a device and names its PVs.
use argus_mcp_server.Dict
use argus_mcp_server.Dict.{Dict}
use argus_mcp_server.Prelude.{
  Str, str, true, false, List, [], ◌∷◌, ◌++◌, map, Option, some, nonempty, ◌≡◌, refl, arith, All,
  str_eq,
}
use mathlib.Core.Option.{map as option_map}
use argus_mcp_server.Inventory.DeviceTypes.{
  DevfuncRule, DeviceTypeProfile, rule_matches, first_match, derive_devfunc, key_pvs,
  key_pvs_for_prefix,
}

module _ (name iocprefix : Str) where
  first_match-skip :
      (before rest : List DevfuncRule) (fallback : Option Str)
      → All (λ r. rule_matches r name iocprefix ≡ false) before
      → first_match (before ++ rest) fallback name iocprefix
        ≡ first_match rest fallback name iocprefix
  unfolding first_match
  first_match-skip [] rest fallback h = refl
  first_match-skip (r ∷ before) rest fallback h =
      ground (arith, first_match-skip before rest fallback h.1, h.0)

  -- A device's function is that of the first of its group's rules that matches.
  derive_devfunc-first :
      (profile : DeviceTypeProfile) (before after : List DevfuncRule) (r : DevfuncRule)
      → profile.devfunc_rules ≡ before ++ r ∷ after
      → All (λ q. rule_matches q name iocprefix ≡ false) before
      → rule_matches r name iocprefix ≡ true
      → derive_devfunc profile name iocprefix ≡ some r.devfunc
  unfolding derive_devfunc first_match
  derive_devfunc-first profile before after r rules skipped matched =
      rw (rules, first_match-skip before (r ∷ after) profile.devfunc_fallback skipped, matched) refl

get-map-suffix :
    (f : Str → Str) (d : Dict Str) (role : Str)
    → Dict.get (map (λ e. (e.0, f e.1)) d) role ≡ option_map f (Dict.get d role)
unfolding Dict.get
get-map-suffix f [] role = refl
get-map-suffix f ((j, v) ∷ d) role = ground (arith, get-map-suffix f d role)

-- The PV of a role is the IOC's prefix, the device's name and the role's suffix, joined by colons,
-- and a role without a suffix in the profile has none.
get-key_pvs :
    (profile : DeviceTypeProfile) (iocprefix device_name role : Str)
    → nonempty iocprefix ≡ true
    → Dict.get (key_pvs profile iocprefix device_name) role
      ≡ option_map
          (λ suffix. (iocprefix ++ str ":" ++ device_name) ++ str ":" ++ suffix)
          (Dict.get profile.key_pv_suffixes role)
unfolding key_pvs key_pvs_for_prefix
get-key_pvs profile [] device_name role h = absurd (ground arith)
get-key_pvs profile (c ∷ iocprefix) device_name role h =
    get-map-suffix _ profile.key_pv_suffixes role
