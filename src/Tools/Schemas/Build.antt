-- ===== src/Tools/Schemas/Build.antt =====
-- The shapes that the input schemas of argus/mcp_server/tools share.
use argus_mcp_server.Dict.{Dict}
use argus_mcp_server.Prelude.{Str, str, List, [], ◌∷◌}
use argus_mcp_server.Values.{Value, Items, Fields, text, list, dict, nil, cons, end, field}

abbrev to_fields : Dict Value → Fields
to_fields [] = end
to_fields ((key, v) ∷ d) = field key v (to_fields d)

abbrev pub entries : Dict Value → Value
entries d = dict (to_fields d)

abbrev to_items : List Str → Items
to_items [] = nil
to_items (s ∷ ss) = cons (text s) (to_items ss)

abbrev pub texts : List Str → Value
texts ss = list (to_items ss)

-- `{"type": type}`
abbrev pub typed : Str → Value
typed type = entries ((str "type", text type) ∷ [])

-- `{"type": type, "description": description}`
abbrev pub described : Str → Str → Value
described type description =
    entries ((str "type", text type) ∷ (str "description", text description) ∷ [])

-- `{"type": "array", "items": {"type": "string"}, "description": description}`
abbrev pub strings : Str → Value
strings description = entries (
    (str "type", text (str "array"))
    ∷ (str "items", typed (str "string"))
    ∷ (str "description", text description)
    ∷ [])

abbrev pub required : List Str → Dict Value
required names = (str "required", texts names) ∷ []

-- `{"type": "object", "properties": properties, ...}`
abbrev pub object_with : Dict Value → Dict Value → Dict Value
object_with properties more =
    (str "type", text (str "object")) ∷ (str "properties", entries properties) ∷ more
