-- ===== src/Diagnostics.antt =====
-- argus/services/diagnostics_service.py and the models of argus/services/models.py: device_status
-- and diagnose_device. The providers are functions to what an awaited call gives (Fanout), the
-- clock and the time windows are left to them.
pub mod Reports
pub mod Tests
use argus_mcp_server.Dict
use argus_mcp_server.Dict.{Dict}
use argus_mcp_server.Fanout.{
  ProviderResult, Awaited, skipped_result, gather_with_timeout, is_degraded,
}
use argus_mcp_server.Prelude.{
  ℕ, Str, str, Bool, true, false, List, [], ◌∷◌, Option, none, some, truthy, or_else, keep, map,
  if◌then◌else◌,
}

pub record Device : Type 0 where
  pub name : Str
  pub device_class : Option Str
  pub pv_names : List Str
  pub primary_pv : Option Str
  pub ioc_name : Option Str
  pub pod_name : Option Str
  pub namespace : Option Str
  pub argocd_app : Option Str
  pub git_repo : Option Str
  pub rack : Option Str
  pub owner : Option Str
  pub network_location : Option Str
  pub documentation_refs : List Str
  pub tags : List Str
  pub properties : Dict Str

-- The calls that the service makes.
pub record Providers (A : Type 0) : Type 0 where
  pub epics_get_many : List Str → Awaited A
  pub archiver_get_data : Option Str → Awaited A
  pub kubernetes_get_pod_for_ioc : Option Str → Option Str → Awaited A
  pub kubernetes_get_pod_logs : Option Str → Str → Awaited A
  pub loki_configured : Bool
  pub loki_search : Str → Option Str → ℕ → Awaited A
  pub argocd_get_application : Option Str → Awaited A
  pub logbook_search_entries : Str → Awaited A
  pub documentation_search : Str → ℕ → Awaited A

pub record DeviceStatusReport (A : Type 0) : Type 0 where
  pub device : Device
  pub live_pvs : ProviderResult A
  pub pod : ProviderResult A
  pub degraded_providers : List Str

pub record DiagnosticReport (A : Type 0) : Type 0 where
  pub device : Device
  pub live_pvs : ProviderResult A
  pub history : ProviderResult A
  pub pod : ProviderResult A
  pub pod_logs : ProviderResult A
  pub argocd : ProviderResult A
  pub logbook : ProviderResult A
  pub documentation : ProviderResult A
  pub degraded_providers : List Str

-- The tasks, and the results of the calls that are not made.
pub record Planned (A : Type 0) : Type 0 where
  pub tasks : Dict (Awaited A)
  pub pre_skipped : Dict (ProviderResult A)

infixl 5 ◌>>=◌
abbrev ◌>>=◌ {ℓ κ} : {A : Type ℓ} {B : Type κ} → Option A → (A → Option B) → Option B
none >>= f = none
some a >>= f = f a

module _ {A : Type 0} where
  -- `[k for k, r in results.items() if r.status not in ("ok", "skipped")]`
  abbrev pub degraded : Dict (ProviderResult A) → List Str
  degraded results = Dict.keys (keep (λ e. is_degraded e.1) results)

  unfoldable pub pod_logs : Providers A → Device → Awaited A
  pod_logs p device =
      let namespace = or_else device.namespace (str "default") in
      if p.loki_configured
      then p.loki_search namespace device.pod_name 200
      else p.kubernetes_get_pod_logs device.pod_name namespace

  -- A task where its test holds, and a skipped result where it does not.
  abbrev plan_if : Bool → Str → Awaited A → Str → Str → Planned A → Planned A
  plan_if true key task provider reason plan = record plan { tasks = Dict.put plan.tasks key task }
  plan_if false key task provider reason plan = record plan {
    pre_skipped = Dict.put plan.pre_skipped key (skipped_result provider reason);
  }

  abbrev start_plan : Providers A → Device → Planned A
  start_plan p device = record {
    tasks = (str "live_pvs", p.epics_get_many device.pv_names) ∷ [];
    pre_skipped = [];
  }

  abbrev plan_pod : Providers A → Device → Bool → Planned A → Planned A
  plan_pod p device has_ioc =
      plan_if has_ioc (str "pod") (p.kubernetes_get_pod_for_ioc device.ioc_name device.namespace)
        (str "kubernetes") (str "device has no known IOC name")

  -- `{**pre_skipped, **await gather_with_timeout(tasks, timeout=timeout)}`
  abbrev collect : Str → Planned A → Dict (ProviderResult A)
  collect limit plan = Dict.update plan.pre_skipped (gather_with_timeout plan.tasks limit)

  abbrev diagnose_plan : Providers A → Device → (has_pv has_ioc has_pod has_app : Bool) → Planned A
  diagnose_plan p device has_pv has_ioc has_pod has_app =
      let history =
        plan_if has_pv (str "history") (p.archiver_get_data device.primary_pv) (str "archiver")
          (str "device has no primary PV") (start_plan p device) in
      let logs =
        plan_if has_pod (str "pod_logs") (pod_logs p device) (str "kubernetes")
          (str "device has no known pod name") (plan_pod p device has_ioc history) in
      let app =
        plan_if has_app (str "argocd") (p.argocd_get_application device.argocd_app) (str "argocd")
          (str "device has no known ArgoCD application") logs in
      record app {
        tasks =
            Dict.put (Dict.put app.tasks (str "logbook") (p.logbook_search_entries device.name))
              (str "documentation") (p.documentation_search device.name 3);
      }

  -- A key that is not in the results would be a KeyError (`none`).
  unfoldable pub status_report : Device → Dict (ProviderResult A) → Option (DeviceStatusReport A)
  status_report device results = do
    live_pvs ← Dict.get results (str "live_pvs")
    pod ← Dict.get results (str "pod")
    some (record {
      device = device;
      live_pvs = live_pvs;
      pod = pod;
      degraded_providers = degraded results;
    })

  unfoldable pub device_status : Providers A → Str → Device → Option (DeviceStatusReport A)
  unfolding status_report
  device_status p limit device =
      status_report device
        (collect limit (plan_pod p device (truthy device.ioc_name) (start_plan p device)))

  unfoldable pub diagnostic_report : Device → Dict (ProviderResult A) → Option (DiagnosticReport A)
  diagnostic_report device results = do
    live_pvs ← Dict.get results (str "live_pvs")
    history ← Dict.get results (str "history")
    pod ← Dict.get results (str "pod")
    logs ← Dict.get results (str "pod_logs")
    argocd ← Dict.get results (str "argocd")
    logbook ← Dict.get results (str "logbook")
    documentation ← Dict.get results (str "documentation")
    some (record {
      device = device;
      live_pvs = live_pvs;
      history = history;
      pod = pod;
      pod_logs = logs;
      argocd = argocd;
      logbook = logbook;
      documentation = documentation;
      degraded_providers = degraded results;
    })

  unfoldable pub diagnose_device : Providers A → Str → Device → Option (DiagnosticReport A)
  unfolding diagnostic_report
  diagnose_device p limit device = diagnostic_report device (
      collect limit (
        diagnose_plan p device (truthy device.primary_pv) (truthy device.ioc_name)
          (truthy device.pod_name) (truthy device.argocd_app)))
