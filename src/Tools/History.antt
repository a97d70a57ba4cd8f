-- ===== src/Tools/History.antt =====
-- argus/mcp_server/tools/history_tools.py: trends, alarms and logbook entries, over the history
-- service.
use argus_mcp_server.Dict
use argus_mcp_server.Dict.{Dict}
use argus_mcp_server.Effects.{Effect, pure, ◌>>=◌}
use argus_mcp_server.Errors.{argus, ErrorClass, Result, ok, raise, unexpected}
use argus_mcp_server.History.{
  Clock, HistoryProviders, get_history, get_alarm_history, create_logbook_entry, get_logbook_entry,
  update_logbook_entry,
}
use argus_mcp_server.Prelude.{
  Str, str, ◌++◌, Bool, true, false, List, [], ◌∷◌, Option, none, some, if◌then◌else◌, map, join,
}
use argus_mcp_server.Registry.Response
use argus_mcp_server.Registry.{ToolDefinition}
use argus_mcp_server.Tools.Arguments.{
  arg, arg_or, require_text, invalid, lift, str_of, as_list, listed, iterate, all_texts, reading,
  writing,
}
use argus_mcp_server.Tools.Schemas.History.{
  get_history_schema, get_alarm_history_schema, create_logbook_entry_schema,
  get_logbook_entry_schema, update_logbook_entry_schema, get_history_description,
  get_alarm_history_description, create_logbook_entry_description, get_logbook_entry_description,
  update_logbook_entry_description,
}
use argus_mcp_server.Values.{Value, null, text, list, dict, truth}

-- `value in (None, "")`
abbrev pub is_blank : Value → Bool
is_blank null = true
is_blank (text []) = true
is_blank _ = false

abbrev pub is_none : Value → Bool
is_none null = true
is_none _ = false

abbrev pub is_list : Value → Bool
is_list (list vs) = true
is_list _ = false

abbrev pub changeable : List Str
changeable = str "title" ∷ str "text" ∷ str "logbooks" ∷ str "tags" ∷ []

-- `{k: arguments[k] for k in keys if arguments.get(k) is not None}`
unfoldable pub given : List Str → Dict Value → Dict Value
unfolding arg_or
given [] arguments = []
given (k ∷ ks) arguments =
    let rest = given ks arguments in
    if is_none (arg arguments k) then rest else (k, arg arguments k) ∷ rest

-- The elements of a list that is not empty.
abbrev given_list : Value → Option (List Value)
given_list (list vs) = if truth (list vs) then some (listed vs) else none
given_list _ = none

-- `fromisoformat` gives none where it raises a ValueError.
module _ {Time : Type 0} (fromisoformat : Str → Option Time) (repr : Value → Str) where
  abbrev parsed : Value → Option Time → Result Time
  parsed value (some t) = ok t
  parsed value none =
      raise (argus ErrorClass.validation_error (str "Invalid ISO 8601 timestamp: " ++ repr value))

  abbrev parse_given : Value → Result Time
  parse_given (text s) = parsed (text s) (fromisoformat s)
  parse_given _ = raise (unexpected (str "fromisoformat: argument must be str"))

  unfoldable pub parse_time : Value → Time → Result Time
  parse_time value default = if truth value then parse_given value else ok default

module _ {W Time : Type 0} (clock : Clock Time) (history_service : HistoryProviders W Time)
    (fromisoformat : Str → Option Time) (repr : Value → Str) where
  unfoldable pub get_history_handler : Dict Value → Effect W (Dict Value)
  unfolding arg_or parse_time get_history
  get_history_handler arguments =
      require_text (str "pv_name cannot be empty and must be a string.")
        (arg arguments (str "pv_name"))
      >>= λ pv_name.
          lift (
            parse_time fromisoformat repr (arg arguments (str "start"))
              (clock.hours_before 1 clock.now))
          >>= λ start.
              lift (parse_time fromisoformat repr (arg arguments (str "end")) clock.now) >>= λ end_.
              get_history clock history_service pv_name start end_ >>= λ series.
              pure ((str "history", dict (Response.to_fields series)) ∷ [])

  unfoldable pub get_alarm_history_handler : Dict Value → Effect W (Dict Value)
  unfolding arg_or get_alarm_history
  get_alarm_history_handler arguments =
      require_text (str "device_name cannot be empty and must be a string.")
        (arg arguments (str "device_name"))
      >>= λ device_name. get_alarm_history clock history_service device_name none >>= λ entries.
          pure ((str "entries", as_list entries) ∷ [])

  -- `if entry_id in (None, ""): raise ...`
  abbrev pub require_entry_id : Dict Value → Effect W Value
  require_entry_id arguments =
      if is_blank (arg arguments (str "entry_id"))
      then invalid (str "entry_id is required.")
      else pure (arg arguments (str "entry_id"))

  unfoldable pub get_logbook_entry_handler : Dict Value → Effect W (Dict Value)
  unfolding arg_or get_logbook_entry
  get_logbook_entry_handler arguments =
      require_entry_id arguments >>= get_logbook_entry clock history_service

  -- `if key in changes and not isinstance(changes[key], list): raise ...`
  abbrev pub require_list : Str → Option Value → Effect W (Unit {0})
  require_list key none = pure tt
  require_list key (some v) =
      if is_list v then pure tt else invalid (key ++ str " must be a list of strings.")

  abbrev pub update_with : Value → Dict Value → Effect W (Dict Value)
  update_with entry_id [] =
      invalid (str "Nothing to change: give at least one of title, text, logbooks, tags.")
  update_with entry_id (change ∷ changes) =
      require_list (str "logbooks") (Dict.get (change ∷ changes) (str "logbooks")) >>= λ u.
      require_list (str "tags") (Dict.get (change ∷ changes) (str "tags")) >>= λ v.
      update_logbook_entry clock history_service entry_id (arg (change ∷ changes) (str "title"))
        (arg (change ∷ changes) (str "text")) (arg (change ∷ changes) (str "logbooks"))
        (arg (change ∷ changes) (str "tags"))

  unfoldable pub update_logbook_entry_handler : Dict Value → Effect W (Dict Value)
  unfolding arg_or given update_logbook_entry
  update_logbook_entry_handler arguments =
      require_entry_id arguments >>= λ entry_id. update_with entry_id (given changeable arguments)

  abbrev create_in : Str → Str → Dict Value → Option (List Value) → Effect W (Dict Value)
  create_in title content arguments none =
      invalid (str "logbooks cannot be empty and must be a list of strings.")
  create_in title content arguments (some logbooks) =
      create_logbook_entry clock history_service title content logbooks (arg arguments (str "tags"))

  unfoldable pub create_logbook_entry_handler : Dict Value → Effect W (Dict Value)
  unfolding arg_or create_logbook_entry
  create_logbook_entry_handler arguments =
      require_text (str "title cannot be empty and must be a string.") (arg arguments (str "title"))
      >>= λ title.
          require_text (str "text cannot be empty and must be a string.")
            (arg arguments (str "text"))
          >>= λ content.
              create_in title content arguments (given_list (arg arguments (str "logbooks")))

  -- `", ".join(values)`
  abbrev joined : Option (List Str) → Result Str
  joined none = raise (unexpected (str "sequence item: expected str instance"))
  joined (some ss) = ok (join (str ", ") ss)

  abbrev join_all : Result (List Value) → Result Str
  join_all (ok vs) = joined (all_texts vs)
  join_all (raise e) = raise e

  abbrev join_value : Value → Result Str
  join_value v = if truth v then join_all (iterate v) else ok []

  abbrev or_mark : Str → Str
  or_mark [] = str "?"
  or_mark (c ∷ s) = c ∷ s

  unfoldable pub describe_create : Dict Value → Effect W Str
  unfolding arg_or iterate all_texts
  describe_create arguments = lift (join_value (arg arguments (str "logbooks"))) >>= λ logbooks.
      lift (join_value (arg arguments (str "tags"))) >>= λ tags. pure (
        str "Post a NEW entry to the "
        ++ or_mark logbooks
        ++ str " logbook"
        ++ (if truth (arg arguments (str "tags")) then str ", tags " ++ tags else [])
        ++ str ", under your name: title "
        ++ repr (arg arguments (str "title"))
        ++ str ", text "
        ++ repr (arg arguments (str "text"))
        ++ str ".")

  unfoldable pub describe_update : Dict Value → Effect W Str
  unfolding arg_or given
  describe_update arguments = pure (
      str "Change logbook entry "
      ++ str_of repr (arg arguments (str "entry_id"))
      ++ str " under your name (the old version is kept as history): "
      ++ join (str "; ")
          (map (λ change. change.0 ++ str " → " ++ repr change.1) (given changeable arguments))
      ++ str ".")

  unfoldable pub tools : List (ToolDefinition W)
  unfolding get_history_handler get_alarm_history_handler create_logbook_entry_handler
      get_logbook_entry_handler update_logbook_entry_handler describe_create describe_update
  tools =
      reading (str "get_history") get_history_description get_history_schema get_history_handler
      ∷ reading (str "get_alarm_history") get_alarm_history_description get_alarm_history_schema
          get_alarm_history_handler
      ∷ writing (str "create_logbook_entry") create_logbook_entry_description
          create_logbook_entry_schema create_logbook_entry_handler describe_create
      ∷ reading (str "get_logbook_entry") get_logbook_entry_description get_logbook_entry_schema
          get_logbook_entry_handler
      ∷ writing (str "update_logbook_entry") update_logbook_entry_description
          update_logbook_entry_schema update_logbook_entry_handler describe_update
      ∷ []
