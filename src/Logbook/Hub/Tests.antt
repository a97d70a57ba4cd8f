-- ===== src/Logbook/Hub/Tests.antt =====
-- A hub with two workspaces, one of which cannot be read; a time is the length of its text.
use argus_mcp_server.Dict.{Dict}
use argus_mcp_server.Errors.{Result, argus, ErrorClass, ok, raise}
use argus_mcp_server.KnowledgeHub.{for_each_workspace}
use argus_mcp_server.Logbook.Hub.{gathered, search_workspace, search_entries}
use argus_mcp_server.Logbook.Hub.Header.{HubEntry, Document, header_fields, olog_number, to_entry}
use argus_mcp_server.Logbook.Hub.Search.{IsAnswer, search_entries-IsAnswer}
use argus_mcp_server.Prelude.{
  ℕ, Str, str, ◌++◌, List, [], ◌∷◌, none, some, length, ◌≡◌, refl, lower, split, strip, lstrip,
  is_space, starts_with, contains, str_beq, if◌then◌else◌, ◌==◌, str_eq,
}

abbrev header : Str
header =
    str "**Logged:** 2026-10-01 12:30 UTC "
    ++ 183 ∷ str " **By:** jdoe "
    ++ 183 ∷ str " **Logbooks:** Operations "
    ++ 183 ∷ str " **Tags:** alarm, vacuum"

header_example :
    header_fields header
    ≡ (str "Logged", str "2026-10-01 12:30 UTC")
      ∷ (str "By", str "jdoe")
      ∷ (str "Logbooks", str "Operations")
      ∷ (str "Tags", str "alarm, vacuum")
      ∷ []
unfolding header_fields lstrip starts_with contains is_space str_beq
header_example = refl

abbrev entry_document : Str → Document
entry_document code =
    (str "uid", some (str "u" ++ code))
    ∷ (str "code", some code)
    ∷ (str "title", some (str "Vacuum alarm"))
    ∷ (str "body_markdown", some (header ++ 10 ∷ 10 ∷ str "Pump 3 tripped."))
    ∷ []

to_entry_example :
    to_entry (λ s. some (length s)) (entry_document (str "OLOG-BTF-12345-WS")) ≡ record {
      id = str "OLOG-BTF-12345-WS";
      title = str "Vacuum alarm";
      content = str "Pump 3 tripped.";
      logbooks = str "Operations" ∷ [];
      tags = str "alarm" ∷ str "vacuum" ∷ [];
      created_at = some 20;
      author = some (str "jdoe");
      url = none;
    }
unfolding to_entry lstrip strip split starts_with contains is_space str_beq
to_entry_example = refl

olog_number_suffix : olog_number (entry_document (str "OLOG-BTF-12345-WS")) ≡ 12346
unfolding olog_number str_beq
olog_number_suffix = refl

olog_number_none : olog_number (entry_document (str "BTF notes")) ≡ 0
unfolding olog_number str_beq
olog_number_none = refl

abbrev searched : (query : Str) (limit : ℕ) → Str → Result (List HubEntry)
searched =
    search_workspace (λ s. some (length s))
      (λ workspace query.
        if workspace == str "btf"
        then ok (entry_document (str "OLOG-BTF-7") ∷ entry_document (str "OLOG-BTF-9") ∷ [])
        else raise (argus ErrorClass.knowledge_hub_timeout query))
      (λ workspace uid. ok (some []))

abbrev both_ids : Result (List Str)
both_ids = ok (str "btf" ∷ str "sparc" ∷ [])

abbrev answered_entries : List HubEntry
answered_entries = to_entry (λ s. some (length s)) (entry_document (str "OLOG-BTF-9")) ∷ []

search_entries-IsAnswer_example :
    (workspaces : List Str) × (results : Dict (List HubEntry)) × (errors : Dict Str) × (left : List
      HubEntry)
    × (both_ids ≡ ok workspaces)
    × (for_each_workspace workspaces (searched (str "alarm") 1) ≡ ok (results, errors))
    × IsAnswer
        (some (str "operations"))
        (str "alarm" ∷ [])
        (some 5)
        1
        (gathered results workspaces)
        answered_entries
        left
unfolding search_entries search_workspace to_entry lower strip lstrip split starts_with contains
    is_space str_beq olog_number
search_entries-IsAnswer_example =
    search_entries-IsAnswer (some (str "operations")) (str "alarm" ∷ []) (some 5) 1 none searched
      both_ids answered_entries refl
