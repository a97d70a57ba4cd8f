-- ===== src/Operations.antt =====
-- argus/services/operations_service.py: reading and writing PVs over two transports, searching
-- channels, listing and restarting IOCs through the Kubernetes cache, procedures and the summary.
-- `W` is everything outside; a provider's call may raise and may change it.
pub mod Fallback
pub mod Iocs
pub mod Tests
use argus_mcp_server.Cache.Timed.{TtlCache, Entries, cached, keep_value}
use argus_mcp_server.Dict
use argus_mcp_server.Dict.{Dict}
use argus_mcp_server.Effects.{Effect}
use argus_mcp_server.Errors.{
  Exception, argus, not_implemented, Result, ok, raise, ErrorClass, Family, family,
}
use argus_mcp_server.Prelude.{
  ℕ, suc, ◌+◌, ◌-◌, Str, str, ◌++◌, Bool, true, false, ◌&&◌, List, [], ◌∷◌, Option, none, some,
  length, take, keep, if◌then◌else◌, ◌==◌, str_eq, truthy, or_else, map,
}
use argus_mcp_server.Values.{Value, ℤ, pos, negsuc}

-- providers/epics/interface.py
pub record EpicsProvider (W : Type 0) : Type 0 where
  pub is_configured : Bool
  pub get : Str → Effect W Value
  pub put : Str → Value → Effect W Value
  pub info : Str → Effect W Value

abbrev pub is_epics_error : Exception → Bool
is_epics_error (argus class message) = elim (family class) [ Family.epics ↦ true | _ ↦ false ]
is_epics_error _ = false

-- Which provider `_epics_for` picks.
pub data Transport : Type 0 where
  ca pva : Transport

pub record Transports (W : Type 0) : Type 0 where
  pub epics_ca : EpicsProvider W
  pub epics_pva : Option (EpicsProvider W)
  pub protocol_overrides : Dict Str

module _ {W : Type 0} where
  abbrev pub chosen : Option Str → Option (EpicsProvider W) → Transport
  chosen none pva? = ca
  chosen (some override) none = ca
  chosen (some override) (some p) = if override == str "pva" then pva else ca

  unfoldable pub epics_for : Transports W → Str → Transport
  epics_for t pv_name = chosen (Dict.get t.protocol_overrides pv_name) t.epics_pva

  -- What the `except EpicsError` does with the primary's outcome: the call over pvAccess if there is
  -- such a provider, it was not the primary and it is configured; the exception again otherwise.
  abbrev retry :
      {A : Type 0}
      → Transport
      → Option (EpicsProvider W)
      → (EpicsProvider W → Effect W A)
      → Result A × W
      → Result A × W
  retry primary pva? op (ok a, w) = (ok a, w)
  retry ca (some p) op (raise e, w) =
      if is_epics_error e && p.is_configured then op p w else (raise e, w)
  retry ca none op (raise e, w) = (raise e, w)
  retry pva pva? op (raise e, w) = (raise e, w)

  -- The provider of a transport.
  abbrev provider : Transports W → Transport → EpicsProvider W
  provider t ca = t.epics_ca
  provider t pva = elim t.epics_pva [ some p ↦ p | none ↦ t.epics_ca ]

  -- The body that get_pv, set_pv and get_pv_info share.
  unfoldable pub with_fallback :
      {A : Type 0} → Transports W → Str → (EpicsProvider W → Effect W A) → Effect W A
  unfolding epics_for
  with_fallback t pv_name op w =
      let primary = epics_for t pv_name in retry primary t.epics_pva op (op (provider t primary) w)

  unfoldable pub get_pv : Transports W → Str → Effect W Value
  unfolding with_fallback
  get_pv t pv_name = with_fallback t pv_name (λ p. p.get pv_name)

  unfoldable pub set_pv : Transports W → Str → Value → Effect W Value
  unfolding with_fallback
  set_pv t pv_name value = with_fallback t pv_name (λ p. p.put pv_name value)

  unfoldable pub get_pv_info : Transports W → Str → Effect W Value
  unfolding with_fallback
  get_pv_info t pv_name = with_fallback t pv_name (λ p. p.info pv_name)

-- `xs[:limit]`
abbrev pub slice_to {ℓ} : {A : Type ℓ} → List A → ℤ → List A
slice_to xs (pos n) = take n xs
slice_to xs (negsuc n) = take (length xs - suc n) xs

pub record PodStatus : Type 0 where
  pub name : Str
  pub phase : Str
  pub ready : Bool

pub record MachineSummary : Type 0 where
  pub ioc_count : ℕ
  pub healthy_iocs : ℕ
  pub unhealthy_iocs : ℕ
  pub recent_alarm_count : ℕ

-- providers/kubernetes, channelfinder and logbook, as far as this service calls them; an absent
-- provider and one that is not configured are treated alike.
pub record Backends (W : Type 0) : Type 0 where
  pub kubernetes_configured : Bool
  pub kubernetes_list_iocs : Option Str → Effect W (List PodStatus)
  pub kubernetes_restart_pod : Str → Str → Effect W Bool
  pub channelfinder_configured : Bool
  pub find_channels : Str → Effect W (List Str)
  pub logbook_configured : Bool
  pub alarm_entries : Effect W (List Value)
  pub kubernetes_cache : TtlCache W (List PodStatus)

-- The service's own state is what the Kubernetes cache holds.
pub record State (W : Type 0) : Type 0 where
  pub iocs_cache : Entries (List PodStatus)
  pub world : W

abbrev pub iocs_key : Str → Str
iocs_key namespace = str "iocs:" ++ namespace

module _ {W : Type 0} (b : Backends W) where
  unfoldable pub search_pvs : Str → ℤ → Effect W (List Str)
  search_pvs query limit w =
      if b.channelfinder_configured
      then (let (found, w') = b.find_channels query w in
          (elim found [ ok channels ↦ ok (slice_to channels limit) | raise e ↦ raise e ], w'))
      else (
        raise (
            argus ErrorClass.channelfinder_error
              (str "search_pvs requires ChannelFinder (set CHANNELFINDER_BASE_URL).")),
        w,
      )

  -- What `get_or_set` does with the outcome of its factory.
  abbrev pub store_iocs :
      Str
      → Entries (List PodStatus)
      → Result (List PodStatus) × W
      → Result (List PodStatus) × State W
  store_iocs key cache (ok pods, w) =
      (ok pods, record { iocs_cache = keep_value b.kubernetes_cache cache key pods w; world = w })
  store_iocs key cache (raise e, w) = (raise e, record { iocs_cache = cache; world = w })

  unfoldable pub list_iocs : Option Str → State W → Result (List PodStatus) × State W
  unfolding cached keep_value
  list_iocs namespace s =
      if b.kubernetes_configured
      then (let key = iocs_key (or_else namespace (str "default")) in
          elim (cached b.kubernetes_cache s.iocs_cache key s.world) [
            | some pods ↦ (ok pods, s)
            | none ↦ store_iocs key s.iocs_cache (b.kubernetes_list_iocs namespace s.world)
          ])
      else (
        raise (
            argus ErrorClass.kubernetes_error
              (str "list_iocs requires Kubernetes (set KUBECONFIG or run in-cluster).")),
        s,
      )

  abbrev pub forget_iocs : Str → Entries (List PodStatus) → Result Bool × W → Result Bool × State W
  forget_iocs key cache (ok accepted, w) =
      (ok accepted, record { iocs_cache = Dict.remove cache key; world = w })
  forget_iocs key cache (raise e, w) = (raise e, record { iocs_cache = cache; world = w })

  unfoldable pub restart_ioc : Str → Str → State W → Result Bool × State W
  restart_ioc pod_name namespace s =
      if b.kubernetes_configured
      then forget_iocs (iocs_key namespace) s.iocs_cache
          (b.kubernetes_restart_pod pod_name namespace s.world)
      else (
        raise (
            argus ErrorClass.kubernetes_error
              (str "restart_ioc requires Kubernetes (set KUBECONFIG or run in-cluster).")),
        s,
      )

  -- `except LogbookError: recent_alarm_count = 0`
  abbrev count_alarms : Result (List Value) → Result ℕ
  count_alarms (ok entries) = ok (length entries)
  count_alarms (raise (argus class message)) = elim (family class) [
    | Family.logbook ↦ ok 0
    | _ ↦ raise (argus class message)
  ]
  count_alarms (raise e) = raise e

  unfoldable pub summarize : List PodStatus → ℕ → MachineSummary
  summarize iocs alarms =
      let healthy = length (keep (λ (p : PodStatus). p.ready && p.phase == str "Running") iocs) in
      record {
        ioc_count = length iocs;
        healthy_iocs = healthy;
        unhealthy_iocs = length iocs - healthy;
        recent_alarm_count = alarms;
      }

  abbrev with_alarms : List PodStatus → Result ℕ → Result MachineSummary
  with_alarms iocs (ok alarms) = ok (summarize iocs alarms)
  with_alarms iocs (raise e) = raise e

  abbrev add_alarms : Result (List PodStatus) × State W → Result MachineSummary × State W
  add_alarms (raise e, s) = (raise e, s)
  add_alarms (ok iocs, s) =
      if b.logbook_configured
      then (let (entries, w) = b.alarm_entries s.world in
          (with_alarms iocs (count_alarms entries), record s { world = w }))
      else (ok (summarize iocs 0), s)

  unfoldable pub machine_summary : Option Str → State W → Result MachineSummary × State W
  unfolding list_iocs summarize
  machine_summary namespace s = add_alarms (list_iocs namespace s)

-- ProcedureRegistry.execute
unfoldable pub execute_procedure {ℓ} :
    {W : Type 0} {A : Type ℓ}
    → Dict (Dict Value → W → Result A × W)
    → Str
    → Dict Value
    → W
    → Result A × W
execute_procedure procedures name params w = elim (Dict.get procedures name) [
  | some procedure ↦ procedure params w
  | none ↦ (
    raise (
        not_implemented (
          str "Procedure '"
          ++ name
          ++ str "' is not defined. No operational procedures are "
          ++ str "registered yet — this tool is scaffolded pending domain sign-off.")),
    w,
  )
]
