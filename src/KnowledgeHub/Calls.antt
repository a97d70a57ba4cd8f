-- ===== src/KnowledgeHub/Calls.antt =====
-- argus/providers/knowledge_hub/client.py: a call of one of the hub's tools, the listing of its
-- workspaces and the health check, each a request of the session. `post` is the POST of the params.
use argus_mcp_server.Errors.{argus, ErrorClass, Result, ok, raise}
use argus_mcp_server.Health.{ProviderStatus, ProviderHealth, available, unconfigured, unavailable}
use argus_mcp_server.KnowledgeHub.{HubWorkspace, Client, Outcome, done, session_expired, Post, rpc}
use argus_mcp_server.KnowledgeHub.Wire.{tool_result, fetch_workspaces}
use argus_mcp_server.Prelude.{
  Str, str, Bool, true, [], ◌∷◌, Option, none, some, List, if◌then◌else◌,
}
use argus_mcp_server.Registry.{put_field}
use argus_mcp_server.Values.{Value, Fields, text, dict, end, field}

-- `args["workspace"] = workspace` of a given one.
unfoldable pub call_arguments : Fields → (workspace : Option Str) → Fields
unfolding put_field
call_arguments arguments none = arguments
call_arguments arguments (some []) = arguments
call_arguments arguments (some (c ∷ workspace)) =
    put_field arguments (str "workspace") (text (c ∷ workspace))

-- A request's end, with what is made of its result.
abbrev pub and_then : {A : Type 0} → Outcome Value → (Value → Result A) → Outcome A
and_then session_expired f = session_expired
and_then (done (raise e)) f = done (raise e)
and_then (done (ok v)) f = done (f v)

abbrev as_health : ProviderStatus → Option Str → Outcome ProviderHealth
as_health status detail =
    done (ok (record { name = str "knowledge_hub"; status = status; detail = detail }))

abbrev health_of : Outcome Value → Outcome ProviderHealth
health_of session_expired = session_expired
health_of (done (ok v)) = as_health available none
health_of (done (raise (argus ErrorClass.knowledge_hub_unavailable message))) =
    as_health unavailable (some message)
health_of (done (raise (argus ErrorClass.knowledge_hub_timeout message))) =
    as_health unavailable (some message)
health_of (done (raise (argus ErrorClass.knowledge_hub_auth_error message))) =
    as_health unavailable (some message)
health_of (done (raise (argus ErrorClass.knowledge_hub_query_error message))) =
    as_health available none
health_of (done (raise e)) = done (raise e)

module _ {W : Type 0} (post : (params : Value) → Post W) (wait : Client → W → Client × W) where
  abbrev call_params : (name : Str) → Fields → Value
  call_params name arguments =
      dict (field (str "name") (text name) (field (str "arguments") (dict arguments) end))

  module _ (repr : Value → Str) (loads : Str → Option Value) (is_configured : Bool) where
    unfoldable pub call_tool :
        (name : Str) (arguments : Fields) (workspace : Option Str)
        → Client
        → W
        → Outcome Value × Client × W
    unfolding call_arguments rpc tool_result
    call_tool name arguments workspace c w =
        let params = call_params name (call_arguments arguments workspace) in
        let answered = rpc (post params) wait is_configured (str "tools/call") c w in
        (and_then answered.0 (tool_result repr loads name workspace), answered.1, answered.2)

    unfoldable pub listed : Client → W → Outcome (List HubWorkspace) × Client × W
    unfolding call_tool fetch_workspaces
    listed c w =
        let answered = call_tool (str "list_workspaces") end none c w in
        (and_then answered.0 (fetch_workspaces repr), answered.1, answered.2)

  -- A hub that answers with an error of its own is up.
  unfoldable pub health : (is_configured : Bool) → Client → W → Outcome ProviderHealth × Client × W
  unfolding rpc
  health is_configured c w =
      if is_configured
      then (let pinged = rpc (post (dict end)) wait true (str "ping") c w in
          (health_of pinged.0, pinged.1, pinged.2))
      else (as_health unconfigured none, c, w)
