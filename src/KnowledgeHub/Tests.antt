-- ===== src/KnowledgeHub/Tests.antt =====
-- A hub that forgot the session that a client still holds.
use argus_mcp_server.Errors.{ok, raise, argus, ErrorClass, Result}
use argus_mcp_server.Prelude.{
  All, ℕ, suc, Str, str, true, false, [], ◌∷◌, List, some, none, Option, if◌then◌else◌, ◌≡◌, ◌≢◌,
  refl, arith, str_beq, starts_with, lstrip, is_space, join,
}
use argus_mcp_server.Dict.{Dict}
use argus_mcp_server.Inventory.{BeamlineDevice}
use argus_mcp_server.KnowledgeHub.Complete.{all_control_devices_complete, hub}
use argus_mcp_server.KnowledgeHub.Inventory.{HubObject, all_control_devices, list_all, to_device}
use argus_mcp_server.KnowledgeHub.Paging.{list_all-Distinct, Distinct}
use argus_mcp_server.SaveRestore.Decode.{item}
use argus_mcp_server.Values.{Value, dict, field, end, int, pos}
use argus_mcp_server.KnowledgeHub.Fanout.{for_each_workspace_raise, Failed}
use argus_mcp_server.KnowledgeHub.{
  for_each_workspace, Client, Response, session_expired, Post, rpc, ensure_initialized, send,
}
use argus_mcp_server.KnowledgeHub.Streams.{
  Event, IsEvent, messages_of, parse_message-write_events, write_events,
}
use argus_mcp_server.KnowledgeHub.Wire.{parse_message}
use argus_mcp_server.KnowledgeHub.Session.{rpc-IsFresh}

abbrev gone : Response
gone = record { status = 404; session = none; detail = str "gone"; message = ok Value.null }

abbrev forgetful : Post ℕ
forgetful session method c w = (ok gone, c, suc w)

abbrev stale : Client
stale = record { session_id = some (str "s1"); initialized = false }

abbrev reset : Client
reset = record { session_id = none; initialized = false }

abbrev at_once : Client → ℕ → Client × ℕ
at_once c w = (c, w)

rpc-IsFresh_example : (rpc forgetful at_once true (str "tools/call") reset 0).0 ≢ session_expired
rpc-IsFresh_example =
    rpc-IsFresh forgetful at_once true (str "tools/call") reset 0 (λ session method c w h. h)
      (λ c w h. h) (λ e. refl)

-- Another call stores the session id of a response that comes late, and the handshake is answered by
-- 404.
abbrev late_session : Post ℕ
late_session session method c w = (ok gone, stale, suc w)

expired_escapes :
    rpc late_session at_once true (str "tools/call") reset 0 ≡ (session_expired, reset, 1)
unfolding rpc ensure_initialized send
expired_escapes = refl

abbrev record_of : Str → Str × BeamlineDevice
record_of uid = (
  uid,
  to_device (record { uid = uid; name = some uid; attributes = none; link = none; url = none })
      (str "btf"),
)

abbrev answers : Dict (List (Str × BeamlineDevice) × List Str)
answers =
    (str "btf", (record_of (str "Q1") ∷ record_of (str "Q2") ∷ [], []))
    ∷ (str "all", (record_of (str "Q2") ∷ record_of (str "Q3") ∷ [], []))
    ∷ []

list_all-Distinct_example :
    Distinct (list_all none none none answers [] (str "all" ∷ str "btf" ∷ [])).0
list_all-Distinct_example = list_all-Distinct none none none answers (str "all" ∷ str "btf" ∷ [])

abbrev refused : Str → Result ℕ
refused ws = raise (argus ErrorClass.knowledge_hub_query_error ws)

for_each_workspace_raise_example : All (λ ws. Failed (refused ws)) (str "btf" ∷ str "sparc" ∷ [])
unfolding for_each_workspace
for_each_workspace_raise_example =
    for_each_workspace_raise (str "btf" ∷ str "sparc" ∷ []) refused
      (argus ErrorClass.knowledge_hub_query_error (str "btf")) refl

abbrev recorded : Str → HubObject
recorded uid = record { uid = uid; name = none; attributes = none; link = none; url = none }

abbrev whole : List HubObject
whole = recorded (str "d1") ∷ recorded (str "d2") ∷ []

all_control_devices_complete_example :
    all_control_devices (λ s. s) (str "btf") {W = ℕ} (hub whole) 0 ≡ (ok (whole, []), 0)
unfolding str_beq
all_control_devices_complete_example =
    all_control_devices_complete (λ s. s) (str "btf") whole 0 (refl, refl, (refl, refl, tt))
      (omega arith)

-- A reader that knows one text.
abbrev one_text : Str → Option Value
one_text s = if str_beq s (str "{}") then some (dict (field (str "id") (int (pos 7)) end)) else none

abbrev progress : Event
progress = (str "1", str "2" ∷ [])

abbrev reply : Event
reply = (str "{}", [])

progress-IsEvent : IsEvent progress
unfolding lstrip is_space
progress-IsEvent = (((refl, tt), refl), (((refl, tt), refl), tt))

reply-IsEvent : IsEvent reply
unfolding lstrip is_space
reply-IsEvent = (((refl, (refl, tt)), refl), tt)

parse_message-write_events_example :
    parse_message one_text
      (str "text/event-stream; charset=utf-8")
      (write_events (progress ∷ reply ∷ progress ∷ []))
      7
    ≡ ok (dict (field (str "id") (int (pos 7)) end))
unfolding starts_with messages_of str_beq join item
parse_message-write_events_example =
    parse_message-write_events one_text (str "text/event-stream; charset=utf-8") 7 (progress ∷ [])
      reply (progress ∷ []) (dict (field (str "id") (int (pos 7)) end)) refl
      (progress-IsEvent, (reply-IsEvent, (progress-IsEvent, tt))) tt refl refl
