-- ===== src/Logbook/Record.antt =====
-- An Olog entry: `LogbookEntry` of argus/providers/logbook/models.py, and `_to_entry` and the changes
-- of an update in argus/providers/logbook/logbook.py. A time is in whole milliseconds.
use argus_mcp_server.Errors.{argus, ErrorClass, Result, ok, raise, unexpected, ◌>>=◌}
use argus_mcp_server.Prelude.{
  ℕ, Str, str, ◌++◌, Bool, true, false, ◌||◌, ◌&&◌, not, List, [], ◌∷◌, Option, none, some,
  if◌then◌else◌, ◌==◌, str_eq,
}
use argus_mcp_server.Registry.{put_field}
use argus_mcp_server.Registry.Register.{get_field}
use argus_mcp_server.Tools.Arguments.{iterate, not_iterable, str_of}
use argus_mcp_server.Values.{
  Value, Items, Fields, null, int, pos, text, list, dict, nil, cons, end, field,
}

pub record LogbookEntry : Type 0 where
  pub id : Str
  pub title : Value
  pub content : Value
  pub logbooks : List Value
  pub tags : List Value
  pub created_at : Option ℕ
  pub author : Value

abbrev or_default : Value → Option Value → Value
or_default default none = default
or_default default (some v) = v

-- `item.get("name")`
abbrev name_of : Value → Result Value
name_of (dict fs) = ok (or_default null (get_field fs (str "name")))
name_of _ = raise (unexpected (str "object has no attribute 'get'"))

unfoldable pub names_of : List Value → Result (List Value)
unfolding get_field
names_of [] = ok []
names_of (v ∷ vs) = name_of v >>= λ name. names_of vs >>= λ rest. ok (name ∷ rest)

abbrev milliseconds : Option Value → Option ℕ
milliseconds (some (int (pos n))) = some n
milliseconds _ = none

module _ (repr : Value → Str) where
  unfoldable pub to_entry : Value → Result LogbookEntry
  unfolding names_of iterate
  to_entry (dict fs) =
      iterate (or_default (list nil) (get_field fs (str "logbooks"))) >>= names_of >>= λ logbooks.
      iterate (or_default (list nil) (get_field fs (str "tags"))) >>= names_of >>= λ tags.
      ok (record {
        id = str_of repr (or_default (text []) (get_field fs (str "id")));
        title = or_default (text []) (get_field fs (str "title"));
        content = or_default (text []) (get_field fs (str "description"));
        logbooks = logbooks;
        tags = tags;
        created_at = milliseconds (get_field fs (str "createdDate"));
        author = or_default null (get_field fs (str "owner"));
      })
  to_entry _ = raise (unexpected (str "object has no attribute 'get'"))

  unfoldable pub all_entries : List Value → Result (List LogbookEntry)
  unfolding to_entry
  all_entries [] = ok []
  all_entries (v ∷ vs) = to_entry v >>= λ entry. all_entries vs >>= λ entries. ok (entry ∷ entries)

  -- `except (KeyError, TypeError)`: a loop over what cannot be gone through is told by its text.
  abbrev shape_checked : Result (List LogbookEntry) → Result (List LogbookEntry)
  shape_checked (raise (unexpected message)) =
      if message == not_iterable
      then raise (
          argus ErrorClass.logbook_query_error
            (str "Unexpected logbook response shape: " ++ message))
      else raise (unexpected message)
  shape_checked r = r

  unfoldable pub to_entries : Value → Result (List LogbookEntry)
  unfolding all_entries iterate
  to_entries payload = shape_checked (iterate payload >>= all_entries)

-- `[{"name": v} for v in values]`
unfoldable pub name_items : List Value → Items
name_items [] = nil
name_items (v ∷ vs) = cons (dict (field (str "name") v end)) (name_items vs)

unfoldable pub names : List Value → Value
unfolding name_items
names vs = list (name_items vs)

abbrev pub is_none : Value → Bool
is_none null = true
is_none _ = false

-- `if value is not None: record[key] = value`
abbrev pub set_given : Fields → Str → Value → Fields
set_given fs key value = if is_none value then fs else put_field fs key value

abbrev has_field : Option Value → Bool
has_field none = false
has_field (some v) = true

-- The text, and the source where the record has one.
abbrev pub set_source : Fields → Value → Fields
set_source fs content =
    if has_field (get_field fs (str "source")) then put_field fs (str "source") content else fs

abbrev pub set_content : Fields → Value → Fields
set_content fs content =
    if is_none content then fs else set_source (put_field fs (str "description") content) content

abbrev pub names_result : Result (List Value) → Result Value
names_result (ok vs) = ok (names vs)
names_result (raise e) = raise e

-- The names under a key, or None where they are not given.
abbrev pub named_value : Value → Result Value
named_value v = if is_none v then ok null else names_result (iterate v)

unfoldable pub merged : Fields → (title content logbooks tags : Value) → Result Fields
unfolding put_field get_field iterate names
merged fs title content logbooks tags = named_value logbooks >>= λ in_logbooks.
    named_value tags >>= λ with_tags. ok (
      set_given
        (set_given (set_content (set_given fs (str "title") title) content) (str "logbooks")
          in_logbooks)
        (str "tags") with_tags)

-- The keys that an update changes.
abbrev pub changes : (title content logbooks tags : Value) → Str → Bool
changes title content logbooks tags key =
    not (is_none title) && key == str "title"
    || not (is_none content) && (key == str "description" || key == str "source")
    || not (is_none logbooks) && key == str "logbooks"
    || not (is_none tags) && key == str "tags"
