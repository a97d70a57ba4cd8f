-- ===== src/Diagnostics/Tests.antt =====
-- A diagnosis of a device with a primary PV and an IOC but no pod, while the logbook is down.
use argus_mcp_server.Errors.{Result, argus, ErrorClass}
use argus_mcp_server.Prelude.{ℕ, str, true, [], ◌∷◌, some, none}
use argus_mcp_server.Diagnostics.{Device, Providers}

abbrev quadrupole : Device
quadrupole = record {
  name = str "QF12";
  device_class = none;
  pv_names = str "QF12:CURRENT_RB" ∷ [];
  primary_pv = some (str "QF12:CURRENT_RB");
  ioc_name = some (str "ioc-qf");
  pod_name = none;
  namespace = none;
  argocd_app = none;
  git_repo = none;
  rack = none;
  owner = none;
  network_location = none;
  documentation_refs = [];
  tags = [];
  properties = [];
}

abbrev providers : Providers ℕ
providers = record {
  epics_get_many = λ names. (Result.ok 1, 5);
  archiver_get_data = λ pv. (Result.ok 2, 5);
  kubernetes_get_pod_for_ioc = λ ioc namespace. (Result.ok 3, 5);
  kubernetes_get_pod_logs = λ pod namespace. (Result.ok 4, 5);
  loki_configured = true;
  loki_search = λ namespace pod limit. (Result.ok 5, 5);
  argocd_get_application = λ app. (Result.ok 6, 5);
  logbook_search_entries =
      λ name. (Result.raise (argus ErrorClass.logbook_unavailable (str "down")), 5);
  documentation_search = λ name k. (Result.ok 8, 5);
}
