-- ===== src/Logbook/Tests.antt =====
-- A logbook with one entry; the world is the number of requests.
use argus_mcp_server.Errors.{ok}
use argus_mcp_server.Http.{Http, answered}
use argus_mcp_server.Logbook.{update_entry}
use argus_mcp_server.Logbook.EntryId.{
  olog_entry_id, parse_id, olog_entry_id-IsDigits, parse_id_code,
}
use argus_mcp_server.Logbook.Digits.{is_decimal}
use argus_mcp_server.Logbook.Record.{LogbookEntry, changes}
use argus_mcp_server.Logbook.Updates.{update_entry-Untouched, read_of, post_of}
use argus_mcp_server.Prelude.{
  ℕ, suc, Str, str, ◌++◌, true, false, [], none, some, ◌≡◌, refl, all, nonempty, str_beq, strip,
  lstrip, is_space, lower, lower_char, starts_with,
}
use argus_mcp_server.Registry.Register.{get_field}
use argus_mcp_server.Tools.Arguments.{listed}
use argus_mcp_server.Values.{Value, Fields, null, text, dict, int, pos, field, end}

abbrev shown : Value → Str
shown (text s) = s
shown _ = str "12"

-- A device's name is no entry.
device_name : parse_id (str "QF12") ≡ none
unfolding parse_id lower lower_char starts_with
device_name = refl

olog_entry_id-IsDigits_example :
    (nonempty (str "1234") ≡ true) × (all is_decimal (str "1234") ≡ true)
unfolding olog_entry_id strip lstrip is_space lower lower_char starts_with
olog_entry_id-IsDigits_example =
    olog_entry_id-IsDigits shown (text (str " OLOG-SPARC-1234-WS ")) (str "1234") refl

parse_id_code_example :
    (parse_id (str "1234") ≡ some (str "1234"))
    × (parse_id (str "OLOG-" ++ str "SPARC_2" ++ str "-" ++ str "1234" ++ str "-WS")
        ≡ some (str "1234"))
unfolding is_decimal
parse_id_code_example =
    parse_id_code (str "SPARC_2") (str "1234") (str "WS") refl refl refl refl refl

abbrev held_entry : Fields
held_entry = field (str "id") (int (pos 12)) (
    field (str "title") (text (str "Beam")) (
      field (str "description") (text (str "old"))
        (field (str "source") (text (str "old")) (field (str "level") (text (str "Info")) end))))

abbrev olog : Http ℕ
olog call w = (
  answered (record {
    status = 200;
    reason_phrase = str "OK";
    body = [];
    json = some (dict held_entry);
    error = [];
  }),
  suc w,
)

abbrev answered_entry : LogbookEntry
answered_entry = record {
  id = str "12";
  title = text (str "Beam");
  content = text (str "old");
  logbooks = [];
  tags = [];
  created_at = none;
  author = null;
}

update_entry-Untouched_example :
    (id : Str) × (held changed : Fields) × (w₁ : ℕ) × (olog_entry_id shown (int (pos 12)) ≡ ok id)
    × (read_of olog true shown null (text (str "new")) null null id 0 ≡ (ok (dict held), w₁))
    × ((post_of olog true shown null (text (str "new")) null null id changed w₁).1 ≡ 2)
    × ((key : Str)
        → changes null (text (str "new")) null null key ≡ false
        → get_field changed key ≡ get_field held key)
unfolding update_entry strip lstrip is_space lower lower_char starts_with str_beq listed
update_entry-Untouched_example =
    update_entry-Untouched olog true shown null (text (str "new")) null null (int (pos 12))
      answered_entry 0 2 refl
