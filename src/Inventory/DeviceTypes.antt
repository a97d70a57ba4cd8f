-- ===== src/Inventory/DeviceTypes.antt =====
-- argus/services/device_types: a profile for each device group, which classifies a device by its
-- name and says which PVs carry its setpoints and readbacks.
use argus_mcp_server.Dict
use argus_mcp_server.Dict.{Dict}
use argus_mcp_server.Prelude.{
  Str, str, Bool, true, false, List, [], ◌∷◌, ◌++◌, map, Option, none, some, any, contains,
  nonempty, if◌then◌else◌, str_eq,
}

pub record DevfuncRule : Type 0 where
  pub substrings : List Str
  pub devfunc : Str
  pub check_iocprefix : Bool

pub record DeviceTypeProfile : Type 0 where
  pub devgroup : Str
  pub devfunc_rules : List DevfuncRule
  pub devfunc_fallback : Option Str
  pub key_pv_suffixes : Dict Str

abbrev pub haystacks : DevfuncRule → Str → Str → List Str
haystacks rule name iocprefix = if rule.check_iocprefix then name ∷ iocprefix ∷ [] else name ∷ []

-- `any(s in h for s in rule.substrings for h in haystacks)`
unfoldable pub rule_matches : DevfuncRule → Str → Str → Bool
unfolding contains
rule_matches rule name iocprefix =
    any (λ s. any (λ h. contains h s) (haystacks rule name iocprefix)) rule.substrings

unfoldable pub first_match : List DevfuncRule → Option Str → Str → Str → Option Str
unfolding rule_matches
first_match [] fallback name iocprefix = fallback
first_match (rule ∷ rules) fallback name iocprefix =
    if rule_matches rule name iocprefix
    then some rule.devfunc
    else first_match rules fallback name iocprefix

unfoldable pub derive_devfunc : DeviceTypeProfile → Str → Str → Option Str
unfolding first_match
derive_devfunc profile name iocprefix =
    first_match profile.devfunc_rules profile.devfunc_fallback name iocprefix

-- `not pv_prefix` answers nothing, and a profile without suffixes maps to nothing as well.
unfoldable pub key_pvs_for_prefix : DeviceTypeProfile → Option Str → Dict Str
key_pvs_for_prefix profile none = []
key_pvs_for_prefix profile (some pv_prefix) =
    if nonempty pv_prefix
    then map (λ e. (e.0, pv_prefix ++ str ":" ++ e.1)) profile.key_pv_suffixes
    else []

unfoldable pub key_pvs : DeviceTypeProfile → Str → Str → Dict Str
unfolding key_pvs_for_prefix
key_pvs profile iocprefix device_name =
    if nonempty iocprefix
    then key_pvs_for_prefix profile (some (iocprefix ++ str ":" ++ device_name))
    else []

abbrev pub rule : List Str → Str → Bool → DevfuncRule
rule substrings devfunc check = record {
  substrings = substrings;
  devfunc = devfunc;
  check_iocprefix = check;
}

abbrev pub magnet : DeviceTypeProfile
magnet = record {
  devgroup = str "mag";
  devfunc_rules =
      rule
        (str "HCV" ∷ str "HCOR" ∷ str "VCOR" ∷ str "HCR" ∷ str "VCR" ∷ str "CHH" ∷ str "CVV" ∷ [])
        (str "COR") false
      ∷ rule (str "QUA" ∷ str "QUAD" ∷ str "QSK" ∷ []) (str "QUA") false
      ∷ rule (str "DIP" ∷ str "DPL" ∷ str "DHS" ∷ str "DHR" ∷ str "DHP" ∷ []) (str "DIP") false
      ∷ rule (str "SOL" ∷ []) (str "SOL") false
      ∷ rule (str "SEX" ∷ []) (str "SEX") false
      ∷ rule (str "UFS" ∷ []) (str "UFS") false
      ∷ [];
  devfunc_fallback = none;
  key_pv_suffixes =
      (str "current_setpoint", str "CURRENT_SP")
      ∷ (str "current_readback", str "CURRENT_RB")
      ∷ (str "state_setpoint", str "STATE_SP")
      ∷ (str "state_readback", str "STATE_RB")
      ∷ [];
}

abbrev pub vacuum : DeviceTypeProfile
vacuum = record {
  devgroup = str "vac";
  devfunc_rules = rule (str "SIP" ∷ []) (str "ion") false ∷ [];
  devfunc_fallback = none;
  key_pv_suffixes = (str "pressure_readback", str "PRES_RB") ∷ [];
}

abbrev pub motor : DeviceTypeProfile
motor = record {
  devgroup = str "mot";
  devfunc_rules =
      rule (str "SLT" ∷ []) (str "SLT") false
      ∷ rule (str "FLG" ∷ []) (str "FLG") false
      ∷ rule (str "MIR" ∷ []) (str "MIR") true
      ∷ rule (str "HMOT" ∷ []) (str "HMOT") false
      ∷ rule (str "VMOT" ∷ []) (str "VMOT") false
      ∷ [];
  devfunc_fallback = some (str "MOT");
  key_pv_suffixes = [];
}

abbrev pub cooling : DeviceTypeProfile
cooling = record {
  devgroup = str "cool";
  devfunc_rules = [];
  devfunc_fallback = none;
  key_pv_suffixes =
      (str "temp_setpoint", str "TEMP_SP")
      ∷ (str "temp_readback", str "TEMP_RB")
      ∷ (str "state_setpoint", str "STATE_SP")
      ∷ (str "state_readback", str "STATE_RB")
      ∷ [];
}

abbrev pub device_types : Dict DeviceTypeProfile
device_types =
    map (λ (p : DeviceTypeProfile). (p.devgroup, p)) (magnet ∷ vacuum ∷ motor ∷ cooling ∷ [])

unfoldable pub get_profile : Option Str → Option DeviceTypeProfile
unfolding Dict.get
get_profile none = none
get_profile (some devgroup) = if nonempty devgroup then Dict.get device_types devgroup else none
