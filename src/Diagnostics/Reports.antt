-- ===== src/Diagnostics/Reports.antt =====
-- Every section of a report, and which providers it calls degraded.
use argus_mcp_server.Dict
use argus_mcp_server.Dict.{Dict}
use argus_mcp_server.Fanout.{ProviderResult, Awaited, skipped_result, run_one, gather_with_timeout}
use argus_mcp_server.Prelude.{
  Str, str, Bool, true, false, [], ◌∷◌, some, ◌≡◌, refl, truthy, str_beq,
}
use argus_mcp_server.Diagnostics.{
  Device, Providers, DeviceStatusReport, DiagnosticReport, degraded, pod_logs, plan_pod, start_plan,
  collect, diagnose_plan, status_report, device_status, diagnostic_report, diagnose_device,
}

module _ {A : Type 0} (p : Providers A) (limit : Str) (device : Device) where
  -- The result of the call under its key, or a skipped result where the device does not say enough.
  abbrev pub section : Bool → Str → Awaited A → Str → Str → ProviderResult A
  section true key task provider reason = run_one key limit task
  section false key task provider reason = skipped_result provider reason

  abbrev pub live_section : ProviderResult A
  live_section = run_one (str "live_pvs") limit (p.epics_get_many device.pv_names)

  abbrev pub pod_section : Bool → ProviderResult A
  pod_section has_ioc =
      section has_ioc (str "pod") (p.kubernetes_get_pod_for_ioc device.ioc_name device.namespace)
        (str "kubernetes") (str "device has no known IOC name")

  abbrev pub status_of : Bool → DeviceStatusReport A
  status_of has_ioc = record {
    device = device;
    live_pvs = live_section;
    pod = pod_section has_ioc;
    degraded_providers =
        degraded ((str "live_pvs", live_section) ∷ (str "pod", pod_section has_ioc) ∷ []);
  }

  status_cases :
      (has_ioc : Bool)
      → status_report device (collect limit (plan_pod p device has_ioc (start_plan p device)))
        ≡ some (status_of has_ioc)
  unfolding status_report gather_with_timeout skipped_result Dict.get Dict.put Dict.update str_beq
  status_cases true = refl
  status_cases false = refl

  -- A device status always comes out, however the calls end: each section is the result of its own
  -- call, the pod is skipped where the device names no IOC, and the degraded providers are those of
  -- the two whose status is neither "ok" nor "skipped", in this order.
  device_status-sections : device_status p limit device ≡ some (status_of (truthy device.ioc_name))
  unfolding device_status
  device_status-sections = status_cases (truthy device.ioc_name)

  abbrev pub report_of : (has_pv has_ioc has_pod has_app : Bool) → DiagnosticReport A
  report_of has_pv has_ioc has_pod has_app =
      let history =
        section has_pv (str "history") (p.archiver_get_data device.primary_pv) (str "archiver")
          (str "device has no primary PV") in
      let pod = pod_section has_ioc in
      let logs =
        section has_pod (str "pod_logs") (pod_logs p device) (str "kubernetes")
          (str "device has no known pod name") in
      let argocd =
        section has_app (str "argocd") (p.argocd_get_application device.argocd_app) (str "argocd")
          (str "device has no known ArgoCD application") in
      let logbook = run_one (str "logbook") limit (p.logbook_search_entries device.name) in
      let documentation =
        run_one (str "documentation") limit (p.documentation_search device.name 3) in
      record {
        device = device;
        live_pvs = live_section;
        history = history;
        pod = pod;
        pod_logs = logs;
        argocd = argocd;
        logbook = logbook;
        documentation = documentation;
        degraded_providers = degraded (
            (str "live_pvs", live_section)
            ∷ (str "history", history)
            ∷ (str "pod", pod)
            ∷ (str "pod_logs", logs)
            ∷ (str "argocd", argocd)
            ∷ (str "logbook", logbook)
            ∷ (str "documentation", documentation)
            ∷ []);
      }

  report_cases :
      (has_pv has_ioc has_pod has_app : Bool)
      → diagnostic_report device
          (collect limit (diagnose_plan p device has_pv has_ioc has_pod has_app))
        ≡ some (report_of has_pv has_ioc has_pod has_app)
  unfolding diagnostic_report gather_with_timeout skipped_result Dict.get Dict.put Dict.update
      str_beq
  report_cases true true true true = refl
  report_cases true true true false = refl
  report_cases true true false true = refl
  report_cases true true false false = refl
  report_cases true false true true = refl
  report_cases true false true false = refl
  report_cases true false false true = refl
  report_cases true false false false = refl
  report_cases false true true true = refl
  report_cases false true true false = refl
  report_cases false true false true = refl
  report_cases false true false false = refl
  report_cases false false true true = refl
  report_cases false false true false = refl
  report_cases false false false true = refl
  report_cases false false false false = refl

  -- A diagnosis always comes out, however the calls end: each section is the result of its own call,
  -- history, pod, logs and ArgoCD are skipped where the device does not name what they ask for, and
  -- the degraded providers are those whose status is neither "ok" nor "skipped", in this order.
  diagnose_device-sections :
      diagnose_device p limit device
      ≡ some (
          report_of
            (truthy device.primary_pv)
            (truthy device.ioc_name)
            (truthy device.pod_name)
            (truthy device.argocd_app))
  unfolding diagnose_device
  diagnose_device-sections =
      report_cases (truthy device.primary_pv) (truthy device.ioc_name) (truthy device.pod_name)
        (truthy device.argocd_app)
