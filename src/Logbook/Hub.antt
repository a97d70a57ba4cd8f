-- ===== src/Logbook/Hub.antt =====
-- argus/providers/logbook/knowledge_hub.py: the logbook entries that the Knowledge Hub keeps as
-- documents. The calls of the hub's tools are parameters; a document is its text fields, and a time is
-- in minutes since `datetime.min`. Concurrent calls are a sequence.
pub mod Header
pub mod Search
pub mod Tests
use argus_mcp_server.Dict
use argus_mcp_server.Dict.{Dict}
use argus_mcp_server.Effects.{Effect, fail}
use argus_mcp_server.Errors.{
  Exception, argus, Result, ok, raise, ErrorClass, Family, family, Role, role, ◌>>=◌,
}
use argus_mcp_server.Health.{ProviderHealth}
use argus_mcp_server.KnowledgeHub.{for_each_workspace, message_of}
use argus_mcp_server.Logbook.Hub.Header.{HubEntry, Document, text_of, olog_number, to_entry}
use argus_mcp_server.Sorting.{sort_greatest}
use argus_mcp_server.Prelude.{
  ℕ, suc, ◌*◌, Str, str, ◌++◌, Bool, true, false, not, ◌&&◌, ◌||◌, List, [], ◌∷◌, Option, none,
  some, any, map, keep, take, if◌then◌else◌, ◌==◌, str_eq, leb, nonempty, or_else, lower,
}

abbrev matches_logbook : Option Str → HubEntry → Bool
matches_logbook none entry = true
matches_logbook (some logbook) entry =
    not (nonempty logbook) || any (λ lb. lower lb == lower logbook) entry.logbooks

abbrev matches_tags : List Str → HubEntry → Bool
matches_tags [] entry = true
matches_tags (t ∷ tags) entry =
    any (λ wanted. any (λ held. lower held == lower wanted) entry.tags) (t ∷ tags)

abbrev matches_since : (since created_at : Option ℕ) → Bool
matches_since none created_at = true
matches_since (some since) none = false
matches_since (some since) (some t) = leb since t

unfoldable pub matches :
    (logbook : Option Str) (tags : List Str) (since : Option ℕ) → HubEntry → Bool
unfolding lower
matches logbook tags since entry =
    matches_logbook logbook entry && matches_tags tags entry && matches_since since entry.created_at

-- `e.created_at or datetime.min`
abbrev pub created_key : HubEntry → ℕ
created_key entry = elim entry.created_at [ none ↦ 0 | some t ↦ t ]

abbrev max_fetched : ℕ
max_fetched = 60

abbrev min : ℕ → ℕ → ℕ
min a b = if leb a b then a else b

abbrev max : ℕ → ℕ → ℕ
max a b = if leb a b then b else a

-- The documents that are fetched: the newest by their Olog number.
unfoldable pub wanted : (limit : ℕ) → List Document → List Document
unfolding sort_greatest olog_number
wanted limit found =
    take (min max_fetched (max (limit * 3) 20))
      (sort_greatest olog_number (keep (λ d. nonempty (text_of d (str "uid"))) found))

-- `tags[0] if tags else ""`
abbrev pub first_tag : List Str → Str
first_tag [] = []
first_tag (t ∷ tags) = t

module _ (parse_logged : Str → Option ℕ) (search : (workspace query : Str) → Result (List Document))
    (get_document : (workspace uid : Str) → Result (Option Document)) where
  -- `None` stands for a document that is not found.
  abbrev with_entry : Document → Option Document → List HubEntry → List HubEntry
  with_entry summary none entries = entries
  with_entry summary (some document) entries =
      to_entry parse_logged (Dict.update summary document) ∷ entries

  unfoldable pub fetch_all : (workspace : Str) → List Document → Result (List HubEntry)
  unfolding to_entry Dict.update
  fetch_all workspace [] = ok []
  fetch_all workspace (d ∷ ds) = get_document workspace (text_of d (str "uid")) >>= λ document.
      fetch_all workspace ds >>= λ entries. ok (with_entry d document entries)

  unfoldable pub search_workspace : (query : Str) (limit : ℕ) → Str → Result (List HubEntry)
  unfolding wanted fetch_all
  search_workspace query limit workspace =
      search workspace query >>= λ found. fetch_all workspace (wanted limit found)

-- `[e for ws in workspaces for e in results.get(ws, [])]`
unfoldable pub gathered : Dict (List HubEntry) → List Str → List HubEntry
gathered results [] = []
gathered results (ws ∷ workspaces) = elim (Dict.get results ws) [
  | none ↦ gathered results workspaces
  | some entries ↦ entries ++ gathered results workspaces
]

-- What is answered of the entries found.
unfoldable pub newest_matching :
    (logbook : Option Str) (tags : List Str) (since : Option ℕ) (limit : ℕ)
    → List HubEntry
    → List HubEntry
unfolding matches sort_greatest
newest_matching logbook tags since limit entries =
    take limit (sort_greatest created_key (keep (matches logbook tags since) entries))

abbrev of_role : Role → Str → Exception
of_role Role.unconfigured message = argus ErrorClass.logbook_unconfigured message
of_role Role.timeout message =
    argus ErrorClass.logbook_timeout
      (str "Timeout searching Knowledge Hub logbook entries: " ++ message)
of_role _ message =
    argus ErrorClass.logbook_query_error (str "Knowledge Hub logbook search failed: " ++ message)

-- The except clauses.
unfoldable pub translated : Exception → Exception
unfolding family role
translated (argus class message) = elim (family class) [
  | Family.knowledge_hub ↦ of_role (role class) message
  | _ ↦ argus class message
]
translated e = e

abbrev pub answered :
    (List HubEntry → List HubEntry)
    → List Str
    → Result (Dict (List HubEntry) × Dict Str)
    → Result (List HubEntry)
answered pick workspaces (raise e) = raise (translated e)
answered pick workspaces (ok answers) = ok (pick (gathered answers.0 workspaces))

-- `ids` is what the client's workspace_ids answers, and `fn` what the search of a workspace for the
-- query answers.
unfoldable pub search_entries :
    (logbook : Option Str) (tags : List Str) (content : Option Str) (since : Option ℕ) (limit : ℕ)
    (ids : Result (List Str)) (fn : (query : Str) (limit : ℕ) → Str → Result (List HubEntry))
    → Result (List HubEntry)
unfolding newest_matching for_each_workspace gathered translated
search_entries logbook tags content since limit (raise e) fn = raise (translated e)
search_entries logbook tags content since limit (ok workspaces) fn =
    answered (newest_matching logbook tags since limit) workspaces
      (for_each_workspace workspaces (fn (or_else content (first_tag tags)) limit))

-- What a writer does, where there is one that is configured.
module _ {W A : Type 0} where
  unfoldable pub create_entry : (writer : Option (Effect W A)) → Effect W A
  create_entry (some create) = create
  create_entry none = fail (
      argus ErrorClass.logbook_unconfigured (
        str "The Knowledge Hub is read-only; posting a logbook entry needs Olog (set "
        ++ str "LOGBOOK_BASE_URL)."))

  unfoldable pub from_olog : (writer : Option (Effect W A)) → Effect W A
  from_olog (some call) = call
  from_olog none = fail (
      argus ErrorClass.logbook_unconfigured (
        str "Reading or changing an Olog entry needs Olog (set LOGBOOK_BASE_URL); the Knowledge "
        ++ str "Hub keeps the logbook as read-only documents."))

-- The health of the client, under the provider's own name.
abbrev pub health : ProviderHealth → ProviderHealth
health h = record h { name = str "knowledge_hub_logbook" }
