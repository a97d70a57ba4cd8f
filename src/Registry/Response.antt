-- ===== src/Registry/Response.antt =====
-- The responses of registry.py: `_sanitize`, `_json_default`, and the JSON that `json.dumps` writes.
-- A response is the JSON value that its text denotes.
use argus_mcp_server.Dict
use argus_mcp_server.Dict.{Dict}
use argus_mcp_server.Errors.{Result, ok, raise, unexpected, ◌>>=◌}
use argus_mcp_server.Prelude.{Str, str, Bool, [], ◌∷◌, ◌≡◌, refl}
use argus_mcp_server.Values.{Value, Items, Fields, Float, ℤ, finite, nan, inf, neg_inf}

-- JSON has no number but the finite ones.
mutual
  pub data Json : Type 0 where
    null : Json
    bool : Bool → Json
    int : ℤ → Json
    number : (repr : Str) → Json
    text : Str → Json
    array : Elements → Json
    object : Members → Json

  pub data Elements : Type 0 where
    nil : Elements
    cons : Json → Elements → Elements

  pub data Members : Type 0 where
    end : Members
    member : Str → Json → Members → Members

abbrev sanitize_float : Float → Value
sanitize_float (finite r) = Value.float (finite r)
sanitize_float nan = Value.null
sanitize_float inf = Value.null
sanitize_float neg_inf = Value.null

unfoldable mutual
  pub sanitize : Value → Value
  sanitize (Value.float f) = sanitize_float f
  sanitize (Value.dict fs) = Value.dict (sanitize_fields fs)
  sanitize (Value.list xs) = Value.list (sanitize_items xs)
  sanitize Value.null = Value.null
  sanitize (Value.bool b) = Value.bool b
  sanitize (Value.int i) = Value.int i
  sanitize (Value.text s) = Value.text s
  sanitize (Value.object shown fs) = Value.object shown fs
  sanitize (Value.other shown) = Value.other shown

  pub sanitize_items : Items → Items
  sanitize_items Items.nil = Items.nil
  sanitize_items (Items.cons x xs) = Items.cons (sanitize x) (sanitize_items xs)

  pub sanitize_fields : Fields → Fields
  sanitize_fields Fields.end = Fields.end
  sanitize_fields (Fields.field k v fs) = Fields.field k (sanitize v) (sanitize_fields fs)

-- `allow_nan=False`
abbrev encode_float : Float → Result Json
encode_float (finite r) = ok (Json.number r)
encode_float nan = raise (unexpected (str "Out of range float values are not JSON compliant: nan"))
encode_float inf = raise (unexpected (str "Out of range float values are not JSON compliant: inf"))
encode_float neg_inf =
    raise (unexpected (str "Out of range float values are not JSON compliant: -inf"))

-- `json.dumps(value, default=_json_default, allow_nan=False)`: an instance is written as its
-- `__dict__`, which `_sanitize` has not seen.
unfoldable mutual
  pub encode : Value → Result Json
  encode Value.null = ok Json.null
  encode (Value.bool b) = ok (Json.bool b)
  encode (Value.int i) = ok (Json.int i)
  encode (Value.float f) = encode_float f
  encode (Value.text s) = ok (Json.text s)
  encode (Value.list xs) = encode_items xs >>= λ ys. ok (Json.array ys)
  encode (Value.dict fs) = encode_fields fs >>= λ ms. ok (Json.object ms)
  encode (Value.object shown fs) = encode_fields fs >>= λ ms. ok (Json.object ms)
  encode (Value.other shown) = ok (Json.text shown)

  pub encode_items : Items → Result Elements
  encode_items Items.nil = ok Elements.nil
  encode_items (Items.cons x xs) =
      encode x >>= λ y. encode_items xs >>= λ ys. ok (Elements.cons y ys)

  pub encode_fields : Fields → Result Members
  encode_fields Fields.end = ok Members.end
  encode_fields (Fields.field k v fs) =
      encode v >>= λ y. encode_fields fs >>= λ ms. ok (Members.member k y ms)

-- The dictionary of a handler's result as a value.
abbrev pub to_fields : Dict Value → Fields
to_fields [] = Fields.end
to_fields ((k, v) ∷ d) = Fields.field k v (to_fields d)

unfoldable pub json_response : Dict Value → Result Json
unfolding sanitize encode
json_response payload = encode (sanitize (Value.dict (to_fields payload)))

-- `{"status": "success", **result}`
unfoldable pub success_response : Dict Value → Result Json
unfolding json_response
success_response result =
    json_response (Dict.update ((str "status", Value.text (str "success")) ∷ []) result)

abbrev pub error_response : Str → Str → Json
error_response code message = Json.object (
    Members.member (str "status") (Json.text (str "error")) (
      Members.member (str "code") (Json.text code)
        (Members.member (str "message") (Json.text message) Members.end)))

-- No instance with a `__dict__` stands anywhere in the value.
abbrev mutual
  pub IsPlain : Value → Type 0
  IsPlain (Value.object shown fs) = ⊥
  IsPlain (Value.list xs) = ArePlain xs
  IsPlain (Value.dict fs) = FieldsArePlain fs
  IsPlain Value.null = Unit
  IsPlain (Value.bool b) = Unit
  IsPlain (Value.int i) = Unit
  IsPlain (Value.float f) = Unit
  IsPlain (Value.text s) = Unit
  IsPlain (Value.other shown) = Unit

  pub ArePlain : Items → Type 0
  ArePlain Items.nil = Unit
  ArePlain (Items.cons x xs) = IsPlain x × ArePlain xs

  pub FieldsArePlain : Fields → Type 0
  FieldsArePlain Fields.end = Unit
  FieldsArePlain (Fields.field k v fs) = IsPlain v × FieldsArePlain fs

mutual
  unfolding encode sanitize

  encode_of_plain : (v : Value) → IsPlain v → (j : Json) × (encode (sanitize v) ≡ ok j)
  encode_of_plain Value.null h = (Json.null, refl)
  encode_of_plain (Value.bool b) h = (Json.bool b, refl)
  encode_of_plain (Value.int i) h = (Json.int i, refl)
  encode_of_plain (Value.float (finite r)) h = (Json.number r, refl)
  encode_of_plain (Value.float nan) h = (Json.null, refl)
  encode_of_plain (Value.float inf) h = (Json.null, refl)
  encode_of_plain (Value.float neg_inf) h = (Json.null, refl)
  encode_of_plain (Value.text s) h = (Json.text s, refl)
  encode_of_plain (Value.list xs) h =
      let (ys, e) = encode_items_of_plain xs h in (Json.array ys, rw e)
  encode_of_plain (Value.dict fs) h =
      let (ms, e) = encode_fields_of_plain fs h in (Json.object ms, rw e)
  encode_of_plain (Value.object shown fs) h = absurd h
  encode_of_plain (Value.other shown) h = (Json.text shown, refl)

  encode_items_of_plain :
      (xs : Items) → ArePlain xs → (ys : Elements) × (encode_items (sanitize_items xs) ≡ ok ys)
  encode_items_of_plain Items.nil h = (Elements.nil, refl)
  encode_items_of_plain (Items.cons x xs) h =
      let (y, e) = encode_of_plain x h.0 in
      let (ys, es) = encode_items_of_plain xs h.1 in (Elements.cons y ys, rw (e, es))

  encode_fields_of_plain :
      (fs : Fields)
      → FieldsArePlain fs
      → (ms : Members) × (encode_fields (sanitize_fields fs) ≡ ok ms)
  encode_fields_of_plain Fields.end h = (Members.end, refl)
  encode_fields_of_plain (Fields.field k v fs) h =
      let (y, e) = encode_of_plain v h.0 in
      let (ms, es) = encode_fields_of_plain fs h.1 in (Members.member k y ms, rw (e, es))

-- A payload that holds no instance with a `__dict__` is always written as JSON: NaN and the
-- infinities, at any depth, never make the response fail.
json_response-IsPlain :
    (payload : Dict Value)
    → IsPlain (Value.dict (to_fields payload))
    → (j : Json) × (json_response payload ≡ ok j)
unfolding json_response
json_response-IsPlain payload h = encode_of_plain (Value.dict (to_fields payload)) h
