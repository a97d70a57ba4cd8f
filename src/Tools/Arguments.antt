-- ===== src/Tools/Arguments.antt =====
-- What the handlers of argus/mcp_server/tools do with their arguments: look one up, require a text,
-- go through a list. An argument that is missing is None.
use argus_mcp_server.Dict
use argus_mcp_server.Dict.{Dict}
use argus_mcp_server.Effects.{Effect, pure, fail}
use argus_mcp_server.Errors.{argus, ErrorClass, Result, ok, raise, unexpected}
use argus_mcp_server.Prelude.{
  Str, str, true, false, List, [], ◌∷◌, Option, none, some, if◌then◌else◌, map,
}
use argus_mcp_server.Registry.Response
use argus_mcp_server.Registry.{ToolDefinition}
use argus_mcp_server.Values.{
  Value, Items, Fields, null, text, list, dict, nil, cons, end, field, truth,
}

-- `arguments.get(key, default)` and `arguments.get(key)`
unfoldable pub arg_or : Value → Dict Value → Str → Value
arg_or default arguments key = elim (Dict.get arguments key) [ none ↦ default | some v ↦ v ]

abbrev pub arg : Dict Value → Str → Value
arg arguments key = arg_or null arguments key

-- `value if value and isinstance(value, str)`
abbrev pub nonempty_text : Value → Option Str
nonempty_text (text (c ∷ s)) = some (c ∷ s)
nonempty_text _ = none

module _ {W : Type 0} where
  -- `raise ValidationError(message)`
  abbrev pub invalid : {A : Type 0} → Str → Effect W A
  invalid message = fail (argus ErrorClass.validation_error message)

  abbrev pub require : Str → Option Str → Effect W Str
  require message (some s) = pure s
  require message none = invalid message

  -- `if not value or not isinstance(value, str): raise ValidationError(message)`
  abbrev pub require_text : (message : Str) → Value → Effect W Str
  require_text message value = require message (nonempty_text value)

  abbrev pub lift : {A : Type 0} → Result A → Effect W A
  lift (ok a) = pure a
  lift (raise e) = fail e

  -- A `ToolDefinition` whose other fields have their defaults, and one that writes.
  abbrev pub reading :
      (name description : Str)
      → Dict Value
      → (Dict Value → Effect W (Dict Value))
      → ToolDefinition W
  reading name description input_schema handler = record {
    name = name;
    description = description;
    input_schema = input_schema;
    handler = handler;
    writes = false;
    describe = none;
    always_confirm = false;
  }

  abbrev pub writing :
      (name description : Str)
      → Dict Value
      → (Dict Value → Effect W (Dict Value))
      → (Dict Value → Effect W Str)
      → ToolDefinition W
  writing name description input_schema handler describe =
      record (reading name description input_schema handler) {
        writes = true;
        describe = some describe;
      }

-- `[dataclasses.asdict(x) for x in xs]`
unfoldable pub items : List (Dict Value) → Items
items [] = nil
items (d ∷ ds) = cons (dict (Response.to_fields d)) (items ds)

abbrev pub as_list : List (Dict Value) → Value
as_list ds = list (items ds)

unfoldable pub texts : List Str → Items
texts [] = nil
texts (s ∷ ss) = cons (text s) (texts ss)

abbrev pub text_list : List Str → Value
text_list ss = list (texts ss)

-- `None` or the text.
abbrev pub optional : Option Str → Value
optional none = null
optional (some s) = text s

unfoldable pub listed : Items → List Value
listed nil = []
listed (cons v vs) = v ∷ listed vs

unfoldable pub field_names : Fields → List Value
field_names end = []
field_names (field k v fs) = text k ∷ field_names fs

-- The text of the TypeError of a loop over anything else.
abbrev pub not_iterable : Str
not_iterable = str "object is not iterable"

-- What `for x in value` goes through: the elements, the characters or the keys.
unfoldable pub iterate : Value → Result (List Value)
iterate (list vs) = ok (listed vs)
iterate (text s) = ok (map (λ c. text (c ∷ [])) s)
iterate (dict fs) = ok (field_names fs)
iterate _ = raise (unexpected not_iterable)

-- `all(isinstance(v, str) for v in values)`, with the texts.
unfoldable pub all_texts : List Value → Option (List Str)
all_texts [] = some []
all_texts (text s ∷ vs) = elim (all_texts vs) [ none ↦ none | some ss ↦ some (s ∷ ss) ]
all_texts (_ ∷ vs) = none

module _ (repr : Value → Str) where
  -- `str(v)`
  abbrev pub str_of : Value → Str
  str_of (text s) = s
  str_of v = repr v

  -- `str(v or "")`
  abbrev pub str_or_empty : Value → Str
  str_or_empty v = if truth v then str_of v else []
