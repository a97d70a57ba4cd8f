-- ===== src/SaveRestore/Provider/Requests.antt =====
-- `_request` and `_refusal` of argus/providers/saverestore/saverestore.py: one request, and the
-- exception for each way it can fail.
use argus_mcp_server.Effects.{Effect, pure, fail}
use argus_mcp_server.Errors.{argus, ErrorClass, Exception, Result, ok, raise, unexpected}
use argus_mcp_server.Http.{
  Http, Call, Method, Ended, Reply, timed_out, failed, answered, is_success,
}
use argus_mcp_server.Prelude.{
  Str, str, ◌++◌, Bool, true, false, ◌||◌, [], ◌∷◌, Option, none, some, take, strip, show, leb,
  nat_beq, if◌then◌else◌,
}
use argus_mcp_server.Registry.Register.{get_field}
use argus_mcp_server.Values.{Value, null, text, dict, truth}

abbrev pub method_name : Method → Str
method_name Method.get = str "GET"
method_name Method.put = str "PUT"
method_name Method.post = str "POST"

-- `path.split("?")[0]`
unfoldable pub before_query : Str → Str
before_query [] = []
before_query (c ∷ s) = if nat_beq c 63 then [] else c ∷ before_query s

-- `body.get("message") or body.get("error")`
abbrev message_or_error : Option Value → Option Value → Value
message_or_error (some v) w = if truth v then v else (elim w [ none ↦ null | some x ↦ x ])
message_or_error none none = null
message_or_error none (some x) = x

abbrev pub reason_of : Reply → Option Value → Value
reason_of reply (some (dict fs)) =
    message_or_error (get_field fs (str "message")) (get_field fs (str "error"))
reason_of reply _ = text reply.body

abbrev refusal_message : Call → Reply → Str → Str
refusal_message call reply reason =
    str "Save-and-restore refused "
    ++ method_name call.method
    ++ str " "
    ++ before_query call.path
    ++ str " (HTTP "
    ++ show reply.status
    ++ str "): "
    ++ take 300 (strip reason)
    ++ (if nat_beq reply.status 401 || nat_beq reply.status 403
        then str
            " - creating needs the signed-in user's token (LibreChat with OPENID_REUSE_TOKENS and "
          ++ str "forwardUserToken), and the user must be allowed to write here."
        else [])

-- A reason that is true and no text has no `strip`.
abbrev pub refused_for : Call → Reply → Value → Exception
refused_for call reply (text (c ∷ s)) =
    argus ErrorClass.saverestore_refused (refusal_message call reply (c ∷ s))
refused_for call reply v =
    if truth v
    then unexpected (str "object has no attribute 'strip'")
    else argus ErrorClass.saverestore_refused (refusal_message call reply reply.reason_phrase)

unfoldable pub refusal : Call → Reply → Exception
unfolding get_field before_query
refusal call reply = refused_for call reply (reason_of reply reply.json)

-- `resp.json()`, whose ValueError nothing catches.
abbrev pub json_of : Option Value → Result Value
json_of (some v) = ok v
json_of none = raise (unexpected (str "Expecting value"))

abbrev pub ended_well : Call → Reply → Result Value
ended_well call reply =
    if is_success reply.status
    then json_of reply.json
    else (if leb 500 reply.status
        then raise (
            argus ErrorClass.saverestore_unavailable
              (str "Save-and-restore error: " ++ reply.error))
        else raise (refusal call reply))

-- The `except` clauses.
unfoldable pub outcome : Call → Ended → Result Value
unfolding refusal
outcome call timed_out =
    raise
      (argus ErrorClass.saverestore_timeout (str "Timeout calling save-and-restore " ++ call.path))
outcome call (failed detail) =
    raise
      (argus ErrorClass.saverestore_unavailable (str "Save-and-restore unreachable: " ++ detail))
outcome call (answered reply) = ended_well call reply

abbrev pub shape_error : Str → Exception
shape_error message = argus ErrorClass.saverestore_query_error message

module _ {W : Type 0} where
  unfoldable pub request : Http W → Call → Effect W Value
  unfolding outcome
  request http call w = let (ended, w') = http call w in (outcome call ended, w')

  abbrev pub require_configured : Bool → Effect W (Unit {0})
  require_configured true = pure tt
  require_configured false = fail (
      argus ErrorClass.saverestore_unconfigured
        (str "Save-and-restore is not configured (set SAVERESTORE_BASE_URL)."))

  -- What a payload was decoded to, or the error that names what it should have been.
  abbrev pub shaped : {A : Type 0} → (Value → Str) → Str → Value → Option A → Effect W A
  shaped why what payload (some a) = pure a
  shaped why what payload none = fail (
      shape_error
        (str "Unexpected save-and-restore " ++ what ++ str " response shape: " ++ why payload))

  abbrev pub lift : {A : Type 0} → Result A → Effect W A
  lift (ok a) = pure a
  lift (raise e) = fail e
