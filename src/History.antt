-- ===== src/History.antt =====
-- argus/services/history_service.py: trends, alarm and maintenance history, logs and logbook entries.
-- The providers are a record; a result is the list of its dataclasses' fields.
use argus_mcp_server.Dict.{Dict}
use argus_mcp_server.Effects.{Effect}
use argus_mcp_server.Prelude.{ℕ, ◌*◌, Str, str, List, [], ◌∷◌, Option, none, some}
use argus_mcp_server.Values.{Value}

-- The calls of the archiver, the logbook, Elasticsearch and Loki that the service makes.
pub record HistoryProviders (W Time : Type 0) : Type 0 where
  pub get_data : Str → Time → Time → Effect W (Dict Value)
  pub search_entries :
      (content : Str) (tags : List Str) → (since : Time) → Effect W (List (Dict Value))
  pub search_logs :
      Str → (index : Value) (since : Option Time) (limit : Value) → Effect W (List (Dict Value))
  pub search_pods :
      (namespace pod container query : Value) (since : Time) (limit : Value)
      → Effect W (List (Dict Value))
  pub create_entry :
      (title content : Str) (logbooks : List Value) (tags : Value) → Effect W (Dict Value)
  pub get_entry : Value → Effect W (Dict Value)
  pub update_entry : Value → (title content logbooks tags : Value) → Effect W (Dict Value)

-- The clock: `now`, and the time so many hours before another.
pub record Clock (Time : Type 0) : Type 0 where
  pub now : Time
  pub hours_before : ℕ → Time → Time

module _ {W Time : Type 0} (clock : Clock Time) (providers : HistoryProviders W Time) where
  -- `since or datetime.now(timezone.utc) - timedelta(days=days)`
  abbrev since_or_days : ℕ → Option Time → Time
  since_or_days days (some since) = since
  since_or_days days none = clock.hours_before (days * 24) clock.now

  unfoldable pub get_history : Str → (start end_ : Time) → Effect W (Dict Value)
  get_history pv_name start end_ = providers.get_data pv_name start end_

  unfoldable pub get_alarm_history : Str → Option Time → Effect W (List (Dict Value))
  get_alarm_history device_name since =
      providers.search_entries device_name (str "alarm" ∷ []) (since_or_days 7 since)

  unfoldable pub get_maintenance_history : Str → Option Time → Effect W (List (Dict Value))
  get_maintenance_history device_name since =
      providers.search_entries device_name (str "maintenance" ∷ []) (since_or_days 30 since)

  unfoldable pub get_logs :
      Str → (index : Value) (since : Option Time) (limit : Value) → Effect W (List (Dict Value))
  get_logs query index since limit = providers.search_logs query index since limit

  unfoldable pub search_pod_logs :
      (namespace pod container query : Value) (since : Time) (limit : Value)
      → Effect W (List (Dict Value))
  search_pod_logs namespace pod container query since limit =
      providers.search_pods namespace pod container query since limit

  unfoldable pub create_logbook_entry :
      (title content : Str) (logbooks : List Value) (tags : Value) → Effect W (Dict Value)
  create_logbook_entry title content logbooks tags =
      providers.create_entry title content logbooks tags

  unfoldable pub get_logbook_entry : Value → Effect W (Dict Value)
  get_logbook_entry entry_id = providers.get_entry entry_id

  unfoldable pub update_logbook_entry :
      Value → (title content logbooks tags : Value) → Effect W (Dict Value)
  update_logbook_entry entry_id title content logbooks tags =
      providers.update_entry entry_id title content logbooks tags
