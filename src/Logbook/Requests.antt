-- ===== src/Logbook/Requests.antt =====
-- How a request to Olog of argus/providers/logbook/logbook.py ends: `_refusal`, `list_logbooks` and the
-- `except` clauses that the operations share. The reason of a refusal is the text that Olog gives.
use argus_mcp_server.Dict.{Dict}
use argus_mcp_server.Effects.{Effect, pure, fail, ◌>>=◌}
use argus_mcp_server.Errors.{argus, ErrorClass, Result, ok, raise, unexpected}
use argus_mcp_server.Http.{
  Http, Call, Method, Ended, Reply, timed_out, failed, answered, is_success,
}
use argus_mcp_server.Prelude.{
  Str, str, ◌++◌, Bool, true, false, ◌||◌, ◌&&◌, List, [], ◌∷◌, Option, none, some, take, strip,
  show, leb, nat_beq, if◌then◌else◌, contains, lower, join, sorted,
}
use argus_mcp_server.Registry.Register.{get_field}
use argus_mcp_server.Tools.Arguments.{iterate, nonempty_text}
use argus_mcp_server.Values.{Value, null, text, dict, truth}

abbrev pub get_call : Str → Dict Str → Call
get_call path params = record { method = Method.get; path = path; params = params; json = none }

abbrev field_or_null : Option Value → Value
field_or_null none = null
field_or_null (some v) = v

-- The names of the entries that are dictionaries with a name.
unfoldable pub logbook_names : List Value → List Str
unfolding get_field
logbook_names [] = []
logbook_names (dict fs ∷ vs) =
    let rest = logbook_names vs in
    elim (nonempty_text (field_or_null (get_field fs (str "name")))) [
      | none ↦ rest
      | some name ↦ name ∷ rest
    ]
logbook_names (_ ∷ vs) = logbook_names vs

abbrev names_in : Result (List Value) → List Str
names_in (ok vs) = sorted (logbook_names vs)
names_in (raise e) = []

abbrev listed_names : Ended → List Str
listed_names (answered reply) =
    if is_success reply.status
    then (elim reply.json [ none ↦ [] | some payload ↦ names_in (iterate payload) ])
    else []
listed_names _ = []

-- `exc.response.json().get("message") or exc.response.text`
abbrev reason_of : Reply → Option Value → Result Value
reason_of reply none = ok (text reply.body)
reason_of reply (some (dict fs)) =
    let message = field_or_null (get_field fs (str "message")) in
    ok (if truth message then message else text reply.body)
reason_of reply (some _) = raise (unexpected (str "object has no attribute 'get'"))

-- `(reason or exc.response.reason_phrase or "").strip()[:300]`
abbrev reason_text : Reply → Result Value → Result Str
reason_text reply (raise e) = raise e
reason_text reply (ok (text (c ∷ s))) = ok (take 300 (strip (c ∷ s)))
reason_text reply (ok v) =
    if truth v
    then raise (unexpected (str "object has no attribute 'strip'"))
    else ok (take 300 (strip reply.reason_phrase))

abbrev refusal_message : (action : Str) → Reply → (reason : Str) → Str
refusal_message action reply reason =
    str "Olog refused to "
    ++ action
    ++ str " (HTTP "
    ++ show reply.status
    ++ str "): "
    ++ reason
    ++ (if nat_beq reply.status 401 || nat_beq reply.status 403
        then str " - the signed-in user (or ARGUS's configured account) may not do this in Olog."
        else [])

abbrev valid_text : List Str → Str
valid_text [] = []
valid_text (n ∷ ns) = str ". Valid logbooks here: " ++ join (str ", ") (n ∷ ns) ++ str "."

-- `resp.json()`, whose ValueError nothing catches.
abbrev pub json_of : Option Value → Result Value
json_of (some v) = ok v
json_of none = raise (unexpected (str "Expecting value"))

module _ {W : Type 0} where
  abbrev pub lift : {A : Type 0} → Result A → Effect W A
  lift (ok a) = pure a
  lift (raise e) = fail e

  abbrev pub require_configured : Bool → Effect W (Unit {0})
  require_configured true = pure tt
  require_configured false = fail (
      argus ErrorClass.logbook_unconfigured
        (str "Logbook is not configured (set LOGBOOK_BASE_URL)."))

module _ {W : Type 0} (http : Http W) where
  unfoldable pub list_logbooks : Effect W (List Str)
  unfolding logbook_names iterate
  list_logbooks w =
      let (ended, w') = http (get_call (str "/Olog/logbooks") []) w in (ok (listed_names ended), w')

  -- A reason that names a logbook as invalid gets the names of the valid ones.
  abbrev with_names : (action : Str) → Reply → (reason : Str) → Effect W Str
  with_names action reply reason =
      if contains (lower reason) (str "logbook") && contains (lower reason) (str "invalid")
      then (list_logbooks >>= λ names.
          pure (refusal_message action reply reason ++ valid_text names))
      else pure (refusal_message action reply reason)

  unfoldable pub refusal : {A : Type 0} → (action : Str) → Reply → Effect W A
  unfolding list_logbooks get_field
  refusal action reply =
      lift (reason_text reply (reason_of reply reply.json))
      >>= with_names action reply
      >>= λ message. fail (argus ErrorClass.logbook_refused message)

  unfoldable pub checked : (on_timeout action : Str) → Ended → Effect W Reply
  unfolding refusal
  checked on_timeout action timed_out = fail (argus ErrorClass.logbook_timeout on_timeout)
  checked on_timeout action (failed detail) =
      fail (argus ErrorClass.logbook_unavailable (str "Logbook unreachable: " ++ detail))
  checked on_timeout action (answered reply) =
      if is_success reply.status
      then pure reply
      else (if leb 500 reply.status
          then fail (argus ErrorClass.logbook_unavailable (str "Logbook error: " ++ reply.error))
          else refusal action reply)

  unfoldable pub send : (on_timeout action : Str) → Call → Effect W Reply
  unfolding checked
  send on_timeout action call w =
      let (ended, w') = http call w in checked on_timeout action ended w'
