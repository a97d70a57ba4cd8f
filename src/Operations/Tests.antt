-- ===== src/Operations/Tests.antt =====
-- Channel Access down, pvAccess up; one cluster whose default namespace is "argus"; two IOCs.
use argus_mcp_server.Dict
use argus_mcp_server.Errors.{ok, raise, argus, ErrorClass, family}
use argus_mcp_server.Operations.{
  EpicsProvider, Transports, Backends, State, PodStatus, list_iocs, restart_ioc, store_iocs,
  iocs_key, set_pv,
}
use argus_mcp_server.Operations.Fallback.{FellBack, IsFirst, set_pv-FellBack}
use argus_mcp_server.Operations.Iocs.{list_iocs-restart_ioc, list_iocs_stale}
use argus_mcp_server.Prelude.{
  ℕ, suc, str, true, false, [], ◌∷◌, some, none, ◌≡◌, ◌≢◌, ◌⊎◌, refl, str_beq, str_beq_iff, arith,
}
use argus_mcp_server.Values.{Value}

abbrev down : EpicsProvider ℕ
down = record {
  is_configured = true;
  get = λ n w. (raise (argus ErrorClass.epics_connection_error (str "down")), suc w);
  put = λ n v w. (raise (argus ErrorClass.epics_connection_error (str "down")), suc w);
  info = λ n w. (raise (argus ErrorClass.epics_connection_error (str "down")), suc w);
}

abbrev up : EpicsProvider ℕ
up = record {
  is_configured = true;
  get = λ n w. (ok Value.null, suc w);
  put = λ n v w. (ok v, suc w);
  info = λ n w. (ok Value.null, suc w);
}

abbrev both : Transports ℕ
both = record {
  epics_ca = down;
  epics_pva = some up;
  protocol_overrides = (str "BPM:IMAGE", str "pva") ∷ [];
}

abbrev running : PodStatus
running = record { name = str "ioc-a"; phase = str "Running"; ready = true }

abbrev crashed : PodStatus
crashed = record { name = str "ioc-b"; phase = str "Failed"; ready = false }

abbrev cluster : Backends ℕ
cluster = record {
  kubernetes_configured = true;
  kubernetes_list_iocs = λ ns w. (ok (running ∷ crashed ∷ []), suc w);
  kubernetes_restart_pod = λ pod ns w. (ok true, suc w);
  channelfinder_configured = false;
  find_channels = λ q w. (ok [], w);
  logbook_configured = true;
  alarm_entries = λ w. (raise (argus ErrorClass.logbook_unavailable (str "down")), w);
  kubernetes_cache = record { clock = λ w. w; ttl = 30; evict = λ entries. entries };
}

abbrev warm : State ℕ
warm = record { iocs_cache = (iocs_key (str "default"), (crashed ∷ [], 30)) ∷ []; world = 0 }

abbrev after_argus : State ℕ
after_argus = record { iocs_cache = (iocs_key (str "default"), (crashed ∷ [], 30)) ∷ []; world = 1 }

abbrev after_default : State ℕ
after_default = record { iocs_cache = []; world = 1 }

set_pv-FellBack_example :
    ((p : EpicsProvider ℕ) × IsFirst both (str "QF:SP") p
      × (p.put (str "QF:SP") Value.null 0 ≡ (ok Value.null, 2)))
    ⊎ FellBack both (str "QF:SP") (λ p. p.put (str "QF:SP") Value.null) 0 Value.null 2
unfolding set_pv Dict.get str_beq family
set_pv-FellBack_example = set_pv-FellBack both (str "QF:SP") Value.null Value.null 0 2 refl

list_iocs-restart_ioc_example :
    list_iocs cluster (some (str "default")) after_default
    ≡ store_iocs cluster (iocs_key (str "default")) [] (ok (running ∷ crashed ∷ []), 2)
unfolding restart_ioc Dict.get Dict.remove str_beq
list_iocs-restart_ioc_example =
    list_iocs-restart_ioc cluster (str "ioc-b") (str "default") warm after_default true refl refl
      refl

argus_is_not_default : str "argus" ≢ str "default"
argus_is_not_default = ground (arith, str_beq_iff (str "argus") (str "default"))

abbrev later : State ℕ
later = record after_argus { world = 29 }

list_iocs_stale_example : list_iocs cluster none later ≡ (ok (crashed ∷ []), later)
unfolding restart_ioc Dict.get Dict.remove str_beq
list_iocs_stale_example =
    list_iocs_stale cluster (str "ioc-b") (str "argus") warm after_argus true (crashed ∷ []) 30
      later argus_is_not_default refl refl refl refl (omega arith)
