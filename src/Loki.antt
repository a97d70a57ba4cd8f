-- ===== src/Loki.antt =====
-- argus/providers/loki/loki.py: the query that is built from the filters, and the search. `http` is
-- the HTTP client, and `json.dumps` of a text is the `quote` of Values/Canonical. `nanos` is the text of
-- a time in nanoseconds, and `instant` the time that `_to_entry` reads, as a number.
pub mod Reader
pub mod Query
pub mod Tests
use argus_mcp_server.Effects.{Effect}
use argus_mcp_server.Errors.{argus, ErrorClass, Result, ok, raise, unexpected, ◌>>=◌}
use argus_mcp_server.Health.{ProviderHealth, available, unavailable, check_health}
use argus_mcp_server.History.{Clock}
use argus_mcp_server.Http.{
  Http, Call, Method, Ended, Reply, timed_out, failed, answered, is_success,
}
use argus_mcp_server.Logbook.Requests.{get_call, json_of, lift}
use argus_mcp_server.Prelude.{
  ℕ, zero, suc, Str, str, ◌++◌, Bool, true, false, List, [], ◌∷◌, Option, none, some, take, join,
  show, if◌then◌else◌, nat_beq,
}
use argus_mcp_server.SaveRestore.Decode.{item, get_or}
use argus_mcp_server.Sorting.{sort_greatest}
use argus_mcp_server.Tools.Arguments.{iterate}
use argus_mcp_server.Values.{Value, text, list, nil, dict, end}
use argus_mcp_server.Values.Canonical.{quote}

-- `f"{label}={json.dumps(value)}"` where the value is given and not empty.
abbrev matcher : (label : Str) → Option Str → List Str
matcher label (some (c ∷ value)) = (label ++ str "=" ++ quote (c ∷ value)) ∷ []
matcher label _ = []

abbrev or_any : List Str → List Str
or_any [] = str "namespace=~\".+\"" ∷ []
or_any (m ∷ matchers) = m ∷ matchers

abbrev with_text : (selector : Str) → Option Str → Str
with_text selector (some (c ∷ content)) = selector ++ str " |= " ++ quote (c ∷ content)
with_text selector _ = selector

unfoldable pub build_query : (namespace pod container content : Option Str) → Str
unfolding quote join
build_query namespace pod container content =
    let matchers =
      matcher (str "namespace") namespace
      ++ matcher (str "pod") pod
      ++ matcher (str "container") container in
    with_text (str "{" ++ join (str ", ") (or_any matchers) ++ str "}") content

pub record LokiLogEntry : Type 0 where
  pub timestamp : ℕ
  pub namespace : Value
  pub pod : Value
  pub container : Value
  pub line : Value

module _ (instant : Value → Result ℕ) where
  -- `ts_ns, line = value`
  abbrev pair_of : Result (List Value) → Result (Value × Value)
  pair_of (ok (ts_ns ∷ line ∷ [])) = ok (ts_ns, line)
  pair_of (ok _) = raise (unexpected (str "wrong number of values to unpack"))
  pair_of (raise e) = raise e

  unfoldable pub to_entry : (stream value : Value) → Result LokiLogEntry
  unfolding get_or iterate
  to_entry stream value = get_or stream (str "stream") (dict end) >>= λ labels.
      pair_of (iterate value) >>= λ pair. instant pair.0 >>= λ timestamp.
      get_or labels (str "namespace") (text []) >>= λ namespace.
      get_or labels (str "pod") (text []) >>= λ pod.
      get_or labels (str "container") (text []) >>= λ container. ok (record {
        timestamp = timestamp;
        namespace = namespace;
        pod = pod;
        container = container;
        line = pair.1;
      })

  unfoldable pub entries_of : (stream : Value) → List Value → Result (List LokiLogEntry)
  unfolding to_entry
  entries_of stream [] = ok []
  entries_of stream (v ∷ vs) =
      to_entry stream v >>= λ entry. entries_of stream vs >>= λ entries. ok (entry ∷ entries)

  -- The entries of all streams, in the order of the answer.
  unfoldable pub stream_entries : List Value → Result (List LokiLogEntry)
  unfolding entries_of get_or iterate
  stream_entries [] = ok []
  stream_entries (stream ∷ streams) =
      get_or stream (str "values") (list nil) >>= iterate >>= λ values.
      entries_of stream values >>= λ entries.
      stream_entries streams >>= λ more. ok (entries ++ more)

  abbrev streams_of : Option Value → Result Value
  streams_of (some streams) = ok streams
  streams_of none = raise (argus ErrorClass.loki_query_error (str "Unexpected Loki response shape"))

  abbrev result_of : Option Value → Option Value
  result_of none = none
  result_of (some payload_data) = item payload_data (str "result")

  unfoldable pub newest_entries : (limit : ℕ) → (payload : Value) → Result (List LokiLogEntry)
  unfolding stream_entries iterate item sort_greatest
  newest_entries limit payload =
      streams_of (result_of (item payload (str "data")))
      >>= iterate
      >>= stream_entries
      >>= λ entries. ok (take limit (sort_greatest (λ (e : LokiLogEntry). e.timestamp) entries))

  abbrev ended_well : Ended → Result Value
  ended_well timed_out = raise (argus ErrorClass.loki_timeout (str "Timeout querying Loki"))
  ended_well (failed detail) =
      raise (argus ErrorClass.loki_unavailable (str "Loki unreachable: " ++ detail))
  ended_well (answered reply) =
      if is_success reply.status
      then json_of reply.json
      else raise (argus ErrorClass.loki_unavailable (str "Loki unreachable: " ++ reply.error))

  -- `limit or self._settings.default_limit`
  abbrev limit_or : (default_limit : ℕ) → Option ℕ → ℕ
  limit_or default_limit (some (suc n)) = suc n
  limit_or default_limit _ = default_limit

  abbrev since_or : {Time : Type 0} → Clock Time → Option Time → Time
  since_or clock (some since) = since
  since_or clock none = clock.hours_before 1 clock.now

  module _ {W Time : Type 0} (http : Http W) (clock : Clock Time) (nanos : Time → Str) where
    unfoldable pub query_call : (query : Str) (limit : ℕ) → (since : Time) → Call
    query_call query limit since = get_call (str "/loki/api/v1/query_range") (
        (str "query", query)
        ∷ (str "limit", show limit)
        ∷ (str "start", nanos since)
        ∷ (str "end", nanos clock.now)
        ∷ (str "direction", str "backward")
        ∷ [])

    unfoldable pub search :
        (configured : Bool) (default_limit : ℕ) (namespace pod container query : Option Str)
        (since : Option Time) (limit : Option ℕ)
        → Effect W (List LokiLogEntry)
    unfolding build_query query_call newest_entries
    search configured default_limit namespace pod container query since limit w =
        if configured
        then (let n = limit_or default_limit limit in
            let (ended, w') =
              http (query_call (build_query namespace pod container query) n (since_or clock since))
                w in
            (ended_well ended >>= newest_entries n, w'))
        else (
          raise (
              argus ErrorClass.loki_unconfigured
                (str "Loki is not configured (set LOKI_BASE_URL).")),
          w,
        )

-- A status other than 200 is named.
abbrev ready_status : (status : ℕ) → ProviderHealth
ready_status status =
    if nat_beq status 200
    then record { name = str "loki"; status = available; detail = none }
    else record {
      name = str "loki";
      status = unavailable;
      detail = some (str "status " ++ show status);
    }

unfoldable pub health :
    {W : Type 0} → Http W → (timeout_text : Str) (configured : Bool) → W → ProviderHealth × W
unfolding check_health
health http timeout_text configured =
    check_health http timeout_text (str "loki") ready_status configured (str "/ready")
