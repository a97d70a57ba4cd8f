-- ===== src/KnowledgeHub/Wire.antt =====
-- argus/providers/knowledge_hub/client.py, between HTTP and the session: the JSON-RPC message in a
-- response, from a JSON body or an event stream, and what a tool's result and the workspaces are read
-- from. `loads` is json.loads, none where it raises a ValueError; `repr` is Python's. An id is an integer.
use argus_mcp_server.Errors.{argus, ErrorClass, Result, ok, raise, unexpected, ◌>>=◌}
use argus_mcp_server.KnowledgeHub.{HubWorkspace}
use argus_mcp_server.Prelude.{
  ℕ, Str, str, ◌++◌, Bool, true, false, ◌&&◌, ◌||◌, List, [], ◌∷◌, Option, none, some, take, drop,
  join, find, lstrip, starts_with, if◌then◌else◌, nat_beq, leb,
}
use argus_mcp_server.SaveRestore.Decode.{item, get_or}
use argus_mcp_server.Tools.Arguments.{iterate, str_of}
use argus_mcp_server.Values.{Value, null, text, int, pos, list, dict, nil, end, truth}

-- `str.splitlines` ends a line at each of these.
abbrev pub is_break : ℕ → Bool
is_break c =
    leb 10 c && leb c 13
    || leb 28 c && leb c 30
    || nat_beq c 0x85
    || nat_beq c 0x2028
    || nat_beq c 0x2029

abbrev pub extend_line : ℕ → List Str → List Str
extend_line c [] = (c ∷ []) ∷ []
extend_line c (line ∷ lines) = (c ∷ line) ∷ lines

-- A carriage return with a line feed is one end.
unfoldable pub splitlines : Str → List Str
unfolding starts_with
splitlines [] = []
splitlines (c ∷ s) =
    let rest = splitlines s in
    if nat_beq c 13 && starts_with s (10 ∷ [])
    then rest
    else (if is_break c then [] ∷ rest else extend_line c rest)

-- `elif not line and data`
abbrev ends_event : (parts : List Str) (line : Str) → Bool
ends_event [] line = false
ends_event (p ∷ parts) [] = true
ends_event (p ∷ parts) (c ∷ line) = false

abbrev pub cons_message : Option Value → List Value → List Value
cons_message none messages = messages
cons_message (some message) messages = message ∷ messages

-- `message.get("id") == request_id` of a dictionary.
abbrev pub answers_to : (request_id : ℕ) → Value → Bool
answers_to request_id message = elim (item message (str "id")) [
  | some (int (pos n)) ↦ nat_beq n request_id
  | _ ↦ false
]

abbrev query_error : {A : Type 0} → Str → Result A
query_error message = raise (argus ErrorClass.knowledge_hub_query_error message)

abbrev a_message : Option Value → Result Value
a_message (some message) = ok message
a_message none =
    query_error (str "The Knowledge Hub's event stream carried no response to the request.")

abbrev a_dict : Value → Result Value
a_dict (dict fs) = ok (dict fs)
a_dict _ = query_error (str "The Knowledge Hub answered with an unexpected JSON-RPC shape.")

module _ (loads : Str → Option Value) where
  abbrev pub message_of_data : List Str → Option Value
  message_of_data parts = loads (join (10 ∷ []) parts)

  -- The loop over the lines, with the parts of the event that is read.
  unfoldable pub read_lines : (parts : List Str) → List Str → List Value
  unfolding starts_with lstrip join
  read_lines parts [] = []
  read_lines parts (line ∷ lines) = elim (starts_with line (str "data:")) [
    | true ↦ read_lines (parts ++ lstrip (drop 5 line) ∷ []) lines
    | false ↦ elim (ends_event parts line) [
      | true ↦ cons_message (message_of_data parts) (read_lines [] lines)
      | false ↦ read_lines parts lines
    ]
  ]

  unfoldable pub sse_messages : Str → List Value
  unfolding splitlines read_lines
  sse_messages stream = read_lines [] (splitlines stream ++ [] ∷ [])

  -- `resp.json()`
  abbrev body_message : (body : Str) → Option Value → Result Value
  body_message body (some message) = a_dict message
  body_message body none =
      query_error (str "The Knowledge Hub answered with non-JSON: " ++ take 200 body)

  unfoldable pub parse_message : (content_type body : Str) (request_id : ℕ) → Result Value
  unfolding sse_messages starts_with item
  parse_message content_type body request_id =
      if starts_with content_type (str "text/event-stream")
      then a_message (find (answers_to request_id) (sse_messages body))
      else body_message body (loads body)

abbrev or_empty : Value → Value
or_empty v = if truth v then v else dict end

abbrev first_true : Option Value → Value → Value
first_true none second = second
first_true (some v) second = if truth v then v else second

abbrev or_no_items : Value → Value
or_no_items v = if truth v then v else list nil

-- `"".join(part.get("text", "") for part in ... if isinstance(part, dict))`
abbrev joined : Value → Result Str → Result Str
joined (text s) (ok rest) = ok (s ++ rest)
joined (text s) (raise e) = raise e
joined _ rest = raise (unexpected (str "sequence item: expected str instance"))

unfoldable pub content_text : List Value → Result Str
unfolding get_or
content_text [] = ok []
content_text (dict fs ∷ parts) =
    let rest = content_text parts in get_or (dict fs) (str "text") (text []) >>= λ v. joined v rest
content_text (_ ∷ parts) = content_text parts

abbrev loaded : Str → Option Value → Value
loaded content none = text content
loaded content (some v) = v

abbrev truth_of : Option Value → Bool
truth_of none = false
truth_of (some v) = truth v

abbrev listed_workspaces : Option (List HubWorkspace) → Result (List HubWorkspace)
listed_workspaces (some workspaces) = ok workspaces
listed_workspaces none =
    raise
      (argus ErrorClass.knowledge_hub_query_error (str "Unexpected list_workspaces response shape"))

module _ (repr : Value → Str) where
  -- `error.get(key)` in an f-string.
  abbrev shown_item : Value → Str → Result Str
  shown_item error key = get_or error key null >>= λ v. ok (str_of repr v)

  abbrev result_or_error : (error result : Option Value) → Result Value
  result_or_error none none = ok (dict end)
  result_or_error none (some result) = ok (or_empty result)
  result_or_error (some error) result = shown_item (or_empty error) (str "code") >>= λ code.
      shown_item (or_empty error) (str "message") >>= λ message. raise (
        argus ErrorClass.knowledge_hub_query_error
          (str "Knowledge Hub error " ++ code ++ str ": " ++ message))

  -- What `_send` makes of the message.
  unfoldable pub result_of : (message : Value) → Result Value
  unfolding item get_or
  result_of message = result_or_error (item message (str "error")) (item message (str "result"))

  -- The text of a response's error.
  unfoldable pub detail : (body : Str) → Option Value → Str
  unfolding item
  detail body none = take 200 body
  detail body (some (dict fs)) =
      let first = item (dict fs) (str "detail") in
      let second = item (dict fs) (str "message") in
      take 200 (str_of repr (first_true first (first_true second (dict fs))))
  detail body (some v) = take 200 (str_of repr v)

  abbrev in_workspace : (workspace : Option Str) → Str
  in_workspace none = []
  in_workspace (some []) = []
  in_workspace (some (c ∷ workspace)) = str " in workspace " ++ repr (text (c ∷ workspace))

  -- `call_tool` from the result of `tools/call` on.
  unfoldable pub tool_result :
      (loads : Str → Option Value) (name : Str) (workspace : Option Str) (result : Value)
      → Result Value
  unfolding content_text get_or iterate
  tool_result loads name workspace result = get_or result (str "content") null >>= λ content.
      iterate (or_no_items content) >>= content_text >>= λ found.
      get_or result (str "isError") null >>= λ failed.
      if truth failed
      then raise (
          argus ErrorClass.knowledge_hub_query_error (
            str "Knowledge Hub tool "
            ++ name
            ++ in_workspace workspace
            ++ str " failed: "
            ++ found))
      else ok (loaded found (loads found))

  -- One element of the list, `None` where Python raises a KeyError or a TypeError.
  abbrev workspace_of : Value → Option HubWorkspace
  workspace_of w = elim (item w (str "id")) [
    | none ↦ none
    | some id ↦ some (record {
      id = str_of repr id;
      name = str_of repr (first_true (item w (str "name")) id);
      shared = truth_of (item w (str "shared"));
    })
  ]

  unfoldable pub workspaces_of : List Value → Option (List HubWorkspace)
  unfolding item
  workspaces_of [] = some []
  workspaces_of (w ∷ ws) = elim (workspace_of w) [
    | none ↦ none
    | some workspace ↦ elim (workspaces_of ws) [
      | none ↦ none
      | some workspaces ↦ some (workspace ∷ workspaces)
    ]
  ]

  abbrev in_list : Result (List Value) → Option (List HubWorkspace)
  in_list (ok ws) = workspaces_of ws
  in_list (raise e) = none

  -- `_fetch_workspaces`; the text of the exception is left out of the message.
  unfoldable pub fetch_workspaces : (payload : Value) → Result (List HubWorkspace)
  unfolding workspaces_of item iterate
  fetch_workspaces payload = elim (item payload (str "workspaces")) [
    | none ↦ listed_workspaces none
    | some ws ↦ listed_workspaces (in_list (iterate ws))
  ]
