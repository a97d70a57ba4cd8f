-- ===== src/Logbook.antt =====
-- argus/providers/logbook/logbook.py: the client of Olog. `http` is the HTTP client.
pub mod Digits
pub mod EntryId
pub mod Requests
pub mod Record
pub mod Updates
pub mod Hub
pub mod Tests
use argus_mcp_server.Dict.{Dict}
use argus_mcp_server.Effects.{Effect, pure, fail, ◌>>=◌}
use argus_mcp_server.Errors.{argus, ErrorClass, Result, ok, raise, unexpected}
use argus_mcp_server.Health.{ProviderHealth, below_500, check_health}
use argus_mcp_server.Http.{Http, Call, Method, Ended, Reply, timed_out, failed, answered}
use argus_mcp_server.Logbook.EntryId.{olog_entry_id}
use argus_mcp_server.Logbook.Record.{LogbookEntry, to_entry, to_entries, names, merged}
use argus_mcp_server.Logbook.Requests.{get_call, send, checked, json_of, require_configured, lift}
use argus_mcp_server.Prelude.{
  ℕ, Str, str, ◌++◌, Bool, true, false, List, [], ◌∷◌, Option, none, some, join, show, nat_beq,
  if◌then◌else◌, nonempty,
}
use argus_mcp_server.Tools.Arguments.{text_list, iterate, listed}
use argus_mcp_server.Values.{Value, Fields, null, text, list, dict, end, field, truth}

abbrev put_given : Dict Str → Str → Option Str → Dict Str
put_given params key none = params
put_given params key (some s) = if nonempty s then params ++ (key, s) ∷ [] else params

-- `since` is the time as `_olog_timestamp` writes it.
abbrev put_since : Dict Str → Option Str → Dict Str
put_since params none = params
put_since params (some stamp) = params ++ (str "start", stamp) ∷ (str "tz", str "UTC") ∷ []

abbrev put_tags : Dict Str → List Str → Dict Str
put_tags params [] = params
put_tags params (t ∷ ts) = params ++ (str "tags", join (str ",") (t ∷ ts)) ∷ []

unfoldable pub search_params :
    (logbook : Option Str) (tags : List Str) (content since : Option Str) (limit : ℕ) → Dict Str
search_params logbook tags content since limit =
    let params = (str "limit", show limit) ∷ [] in
    let with_logbook = put_given params (str "logbooks") logbook in
    let with_tags = put_tags with_logbook tags in
    put_since (put_given with_tags (str "text") content) since

abbrev pub logs_path : Str
logs_path = str "/Olog/logs"

abbrev pub entry_path : Str → Str
entry_path olog_id = logs_path ++ str "/" ++ olog_id

-- The body of a new entry.
unfoldable pub entry_body : (title content : Str) (logbooks tags : List Value) → Value
unfolding names
entry_body title content logbooks tags = dict (
    field (str "title") (text title) (
      field (str "description") (text content)
        (field (str "logbooks") (names logbooks) (field (str "tags") (names tags) end))))

-- `tags or []`
abbrev tags_of : Value → Result (List Value)
tags_of v = if truth v then iterate v else ok []

-- A record that is no dictionary has no key that could be set.
abbrev pub fields_of : Value → Result Fields
fields_of (dict fs) = ok fs
fields_of _ = raise (unexpected (str "object does not support item assignment"))

module _ {W : Type 0} (http : Http W) (configured : Bool) (repr : Value → Str) where
  unfoldable pub search_entries : Dict Str → Effect W (List LogbookEntry)
  unfolding send to_entries
  search_entries params = require_configured configured >>= λ u.
      send http (str "Timeout searching logbook entries") (str "search the logbook")
        (get_call logs_path params)
      >>= λ reply. lift (json_of reply.json) >>= λ payload. lift (to_entries repr payload)

  unfoldable pub create_entry :
      (title content : Str) (logbooks : List Value) (tags : Value) → Effect W LogbookEntry
  unfolding send to_entry entry_body iterate
  create_entry title content logbooks tags = require_configured configured >>= λ u.
      lift (tags_of tags) >>= λ given_tags.
      send http (str "Timeout creating logbook entry") (str "create the entry") (record {
        method = Method.put;
        path = logs_path;
        params = [];
        json = some (entry_body title content logbooks given_tags);
      })
      >>= λ reply. lift (json_of reply.json) >>= λ payload. lift (to_entry repr payload)

  -- `resp.status_code == 404`, before `raise_for_status`.
  abbrev pub found_or : (on_timeout action olog_id : Str) → Ended → Effect W Reply
  found_or on_timeout action olog_id (answered reply) =
      if nat_beq reply.status 404
      then fail
          (argus ErrorClass.logbook_query_error (str "No logbook entry " ++ olog_id ++ str "."))
      else checked http on_timeout action (answered reply)
  found_or on_timeout action olog_id ended = checked http on_timeout action ended

  unfoldable pub get_raw : (on_timeout action olog_id : Str) → Effect W Value
  unfolding checked
  get_raw on_timeout action olog_id w =
      let (ended, w') = http (get_call (entry_path olog_id) []) w in
      (found_or on_timeout action olog_id ended >>= λ reply. lift (json_of reply.json)) w'

  unfoldable pub get_entry : Value → Effect W LogbookEntry
  unfolding get_raw olog_entry_id to_entry
  get_entry entry_id = require_configured configured >>= λ u.
      lift (olog_entry_id repr entry_id) >>= λ olog_id.
      get_raw (str "Timeout reading logbook entry " ++ olog_id) (str "read entry " ++ olog_id)
        olog_id
      >>= λ payload. lift (to_entry repr payload)

  abbrev pub post_call : (olog_id : Str) → Fields → Call
  post_call olog_id changed = record {
    method = Method.post;
    path = entry_path olog_id;
    params = [];
    json = some (dict changed);
  }

  -- The rest of an update, once the record is read.
  abbrev pub post_entry :
      (olog_id : Str) → (title content logbooks tags : Value) → Fields → Effect W LogbookEntry
  post_entry olog_id title content logbooks tags held =
      lift (merged held title content logbooks tags) >>= λ changed.
      send http (str "Timeout updating logbook entry " ++ olog_id) (str "update entry " ++ olog_id)
        (post_call olog_id changed)
      >>= λ reply. lift (json_of reply.json) >>= λ payload. lift (to_entry repr payload)

  unfoldable pub update_entry :
      Value → (title content logbooks tags : Value) → Effect W LogbookEntry
  unfolding get_raw olog_entry_id to_entry merged send
  update_entry entry_id title content logbooks tags = require_configured configured >>= λ u.
      lift (olog_entry_id repr entry_id) >>= λ olog_id.
      get_raw (str "Timeout updating logbook entry " ++ olog_id) (str "update entry " ++ olog_id)
        olog_id
      >>= λ payload. lift (fields_of payload) >>= post_entry olog_id title content logbooks tags

unfoldable pub health :
    {W : Type 0} → Http W → (timeout_text : Str) (configured : Bool) → W → ProviderHealth × W
unfolding check_health
health http timeout_text configured =
    check_health http timeout_text (str "logbook") (below_500 (str "logbook")) configured
      (str "/Olog/logbooks")
