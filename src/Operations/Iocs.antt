-- ===== src/Operations/Iocs.antt =====
-- The list of IOCs and its cache, and the summary.
use mathlib.Core.Path.{subst}
use argus_mcp_server.Cache.Timed.{Entries, cached, cached_unexpired}
use argus_mcp_server.Dict
use argus_mcp_server.Dict.{Dict, get-put, get-remove}
use argus_mcp_server.Errors.{Result, ok, raise}
use argus_mcp_server.Prelude.{
  ℕ, ◌+◌, ◌<◌, Str, str, Bool, true, List, Option, none, some, ◌≡◌, ◌≢◌, refl, arith, ap, ◌∙◌,
  Bool-cases, inl, inr, ◌==◌, str_eq, str_beq_iff, or_else, length-keep-le, nonempty, [], ◌∷◌, ◌&&◌,
}
use argus_mcp_server.Operations.{
  PodStatus, Backends, State, MachineSummary, iocs_key, list_iocs, restart_ioc, summarize,
  machine_summary, store_iocs, forget_iocs, add_alarms, with_alarms, count_alarms,
}

module _ {W : Type 0} (b : Backends W) where
  forget_iocs_cache :
      (key : Str) (cache : Entries (List PodStatus)) (r : Result Bool × W) (accepted : Bool)
      (s' : State W)
      → forget_iocs b key cache r ≡ (ok accepted, s')
      → s'.iocs_cache ≡ Dict.remove cache key
  forget_iocs_cache key cache (ok a, w) accepted s' e = ground (arith)
  forget_iocs_cache key cache (raise x, w) accepted s' e = absurd (ground arith)

  restart_ioc_cache :
      (pod_name namespace : Str) (s s' : State W) (accepted : Bool)
      → restart_ioc b pod_name namespace s ≡ (ok accepted, s')
      → s'.iocs_cache ≡ Dict.remove s.iocs_cache (iocs_key namespace)
  unfolding restart_ioc
  restart_ioc_cache pod_name namespace s s' accepted e = elim (Bool-cases b.kubernetes_configured) [
    | inl yes_k ↦
        forget_iocs_cache (iocs_key namespace) s.iocs_cache
          (b.kubernetes_restart_pod pod_name namespace s.world) accepted s' (ground arith)
    | inr no_k ↦ absurd (ground arith)
  ]

  or_else-nonempty : (s d : Str) → nonempty s ≡ true → or_else (some s) d ≡ s
  or_else-nonempty [] d h = cc
  or_else-nonempty (c ∷ s) d h = refl

  list_iocs_miss :
      (namespace : Option Str) (s : State W)
      → b.kubernetes_configured ≡ true
      → Dict.get s.iocs_cache (iocs_key (or_else namespace (str "default"))) ≡ none
      → list_iocs b namespace s
        ≡ store_iocs b
            (iocs_key (or_else namespace (str "default")))
            s.iocs_cache
            (b.kubernetes_list_iocs namespace s.world)
  unfolding list_iocs cached
  list_iocs_miss namespace s configured missing =
      rw (configured, list_iocs) (rw (missing, list_iocs))

  list_iocs_hit :
      (namespace : Option Str) (s : State W) (pods : List PodStatus)
      → b.kubernetes_configured ≡ true
      → cached b.kubernetes_cache s.iocs_cache
          (iocs_key (or_else namespace (str "default")))
          s.world
        ≡ some pods
      → list_iocs b namespace s ≡ (ok pods, s)
  unfolding list_iocs
  list_iocs_hit namespace s pods configured found = rw (configured, found) refl

  -- After a restart in a namespace that Kubernetes accepted or declined without an error, the next
  -- listing of that namespace asks Kubernetes again.
  pub list_iocs-restart_ioc :
      (pod_name namespace : Str) (s s' : State W) (accepted : Bool)
      → nonempty namespace ≡ true
      → b.kubernetes_configured ≡ true
      → restart_ioc b pod_name namespace s ≡ (ok accepted, s')
      → list_iocs b (some namespace) s'
        ≡ store_iocs b
            (iocs_key namespace)
            s'.iocs_cache
            (b.kubernetes_list_iocs (some namespace) s'.world)
  list_iocs-restart_ioc pod_name namespace s s' accepted full configured e =
      let same = or_else-nonempty namespace (str "default") full in
      subst
        (λ n.
          list_iocs b (some namespace) s'
          ≡ store_iocs b (iocs_key n) s'.iocs_cache
              (b.kubernetes_list_iocs (some namespace) s'.world))
        same
        (list_iocs_miss (some namespace) s' configured (
          ap (λ c. Dict.get c (iocs_key (or_else (some namespace) (str "default"))))
            (restart_ioc_cache pod_name namespace s s' accepted e)
          ∙ get-remove s.iocs_cache (iocs_key namespace) _
          ∙ ground (
            arith,
            same,
            str_beq_iff (iocs_key namespace) (iocs_key (or_else (some namespace) (str "default"))),
          )))

  -- A listing that names no namespace is kept under "default", whatever the cluster's own default
  -- namespace is: where that has another name, a restart in it leaves the list of before in the
  -- cache, and a listing that follows returns that list without asking Kubernetes, as long as the entry
  -- has not expired and the cache holds what it held after the restart.
  pub list_iocs_stale :
      (pod_name namespace : Str) (s s' : State W) (accepted : Bool) (pods : List PodStatus)
      (expires_at : ℕ) (later : State W)
      → namespace ≢ str "default"
      → b.kubernetes_configured ≡ true
      → Dict.get s.iocs_cache (iocs_key (str "default")) ≡ some (pods, expires_at)
      → restart_ioc b pod_name namespace s ≡ (ok accepted, s')
      → later.iocs_cache ≡ s'.iocs_cache
      → b.kubernetes_cache.clock later.world < expires_at
      → list_iocs b none later ≡ (ok pods, later)
  list_iocs_stale pod_name namespace s s' accepted pods expires_at later other configured held e
        same early =
      list_iocs_hit none later pods configured (
        cached_unexpired b.kubernetes_cache later.iocs_cache (iocs_key (str "default")) pods
          expires_at later.world
          (ap (λ c. Dict.get c (iocs_key (str "default")))
              (same ∙ restart_ioc_cache pod_name namespace s s' accepted e)
            ∙ get-remove s.iocs_cache (iocs_key namespace) (iocs_key (str "default"))
            ∙ ground
                (arith, held, str_beq_iff (iocs_key namespace) (iocs_key (str "default")), other))
          early)

  summarize_counts :
      (iocs : List PodStatus) (alarms : ℕ)
      → (summarize b iocs alarms).healthy_iocs + (summarize b iocs alarms).unhealthy_iocs
        ≡ (summarize b iocs alarms).ioc_count
  unfolding summarize
  summarize_counts iocs alarms =
      omega (arith, length-keep-le (λ (p : PodStatus). p.ready && p.phase == str "Running") iocs)

  abbrev Counts : MachineSummary → Type 0
  Counts m = m.healthy_iocs + m.unhealthy_iocs ≡ m.ioc_count

  alarms_counted :
      (iocs : List PodStatus) (r : Result ℕ) (m : MachineSummary)
      → with_alarms b iocs r ≡ ok m
      → Counts m
  alarms_counted iocs (ok n) m e =
      subst Counts {x = summarize b iocs n} {y = m} (ground arith) (summarize_counts iocs n)
  alarms_counted iocs (raise x) m e = absurd (ground arith)

  counted :
      (listed : Result (List PodStatus) × State W) (s' : State W) (m : MachineSummary)
      → add_alarms b listed ≡ (ok m, s')
      → Counts m
  counted (raise x, s) s' m e = absurd (ground arith)
  counted (ok iocs, s) s' m e = elim (Bool-cases b.logbook_configured) [
    | inl on ↦ alarms_counted iocs (count_alarms b (b.alarm_entries s.world).0) m (ground arith)
    | inr off ↦
        subst Counts {x = summarize b iocs 0} {y = m} (ground arith) (summarize_counts iocs 0)
  ]

  -- Every IOC is counted once, as healthy or as unhealthy.
  machine_summary_counts :
      (namespace : Option Str) (s s' : State W) (summary : MachineSummary)
      → machine_summary b namespace s ≡ (ok summary, s')
      → summary.healthy_iocs + summary.unhealthy_iocs ≡ summary.ioc_count
  unfolding machine_summary
  machine_summary_counts namespace s s' summary e = counted (list_iocs b namespace s) s' summary e
