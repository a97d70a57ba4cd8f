-- ===== src/Registry/Register.antt =====
-- The registered tools, and what is advertised of them.
use argus_mcp_server.Dict
use argus_mcp_server.Dict.{Dict, get-put}
use argus_mcp_server.Prelude.{
  Str, str, Bool, false, List, [], ◌∷◌, ◌++◌, Option, none, some, ◌≡◌, ◌≢◌, refl, ◌∙◌, arith,
  if◌then◌else◌, ◌==◌, str_eq, str_beq_iff, str_beq_self,
}
use mathlib.Core.List.{append-nil, append_assoc}
use argus_mcp_server.Values.{Value, Fields, dict, end, field}
use argus_mcp_server.Confirmation.{confirmation_arg}
use argus_mcp_server.Registry.{
  ToolDefinition, register, register_many, needs_confirmation, as_mcp_tool, put_field, properties,
  confirm_property,
}

-- `fields.get(k)`
unfoldable pub get_field : Fields → Str → Option Value
get_field end k = none
get_field (field j v fs) k = if j == k then some v else get_field fs k

pub get_field-put_field :
    (fs : Fields) (k j : Str) (v : Value)
    → get_field (put_field fs k v) j ≡ (if k == j then some v else get_field fs j)
unfolding get_field put_field
get_field-put_field end k j v = refl
get_field-put_field (field i w fs) k j v =
    ground (arith, str_beq_iff i k, str_beq_iff i j, str_beq_iff k j, get_field-put_field fs k j v)

module _ {W : Type 0} where
  values-put :
      (tools : Dict (ToolDefinition W)) (name : Str) (tool : ToolDefinition W)
      → Dict.has tools name ≡ false
      → Dict.values (Dict.put tools name tool) ≡ Dict.values tools ++ tool ∷ []
  unfolding Dict.put Dict.get
  values-put [] name tool h = refl
  values-put ((k, t) ∷ tools) name tool h = ground (arith, values-put tools name tool)

  register-IsDict :
      (tools : Dict (ToolDefinition W)) (tool : ToolDefinition W) (more : Dict (ToolDefinition W))
      → Dict.IsDict tools
      → register tools tool ≡ some more
      → Dict.IsDict more × (Dict.values more ≡ Dict.values tools ++ tool ∷ [])
  unfolding register
  register-IsDict tools tool more h e =
      ground (arith, Dict.put-IsDict tools tool.name tool h, values-put tools tool.name tool)

  -- A registration that succeeds leaves the names distinct, and the tools in the order in which they
  -- were given, behind those that were there.
  pub register_many-IsDict :
      (tools : Dict (ToolDefinition W)) (given : List (ToolDefinition W))
      (registered : Dict (ToolDefinition W))
      → Dict.IsDict tools
      → register_many tools given ≡ some registered
      → Dict.IsDict registered × (Dict.values registered ≡ Dict.values tools ++ given)
  unfolding register_many
  register_many-IsDict tools [] registered h e = ground (arith, append-nil (Dict.values tools))
  register_many-IsDict tools (tool ∷ given) registered h e =
      after (λ more. register_many-IsDict more given registered) (register tools tool) refl e
    where
      after :
          ((more : Dict (ToolDefinition W))
            → Dict.IsDict more
            → register_many more given ≡ some registered
            → Dict.IsDict registered × (Dict.values registered ≡ Dict.values more ++ given))
          → (r : Option (Dict (ToolDefinition W))) → register tools tool ≡ r
          → (elim r [ none ↦ none | some more ↦ register_many more given ]) ≡ some registered
          → Dict.IsDict registered × (Dict.values registered ≡ Dict.values tools ++ tool ∷ given)
      after rest none e' x = cc
      after rest (some more) e' x =
          let (distinct, there) = register-IsDict tools tool more h e' in
          let (distinct', all_there) = rest more distinct x in
          (distinct', all_there ∙ rw there (append_assoc (Dict.values tools) (tool ∷ []) given))

  schema_key :
      (tool : ToolDefinition W) (confirm_writes : Bool) (k : Str)
      → k ≢ str "properties"
      → Dict.get (as_mcp_tool tool confirm_writes).input_schema k ≡ Dict.get tool.input_schema k
  unfolding as_mcp_tool
  schema_key tool confirm_writes k other = ground (
    arith,
    get-put tool.input_schema (str "properties") k (
        dict (
          put_field (properties (Dict.get tool.input_schema (str "properties"))) confirmation_arg
            confirm_property)),
    str_beq_iff (str "properties") k,
    other,
  )

  -- In the input schema that a client sees, `confirmation_id` is the property that asks for the id where
  -- a call is confirmed in two steps, and as declared where it is not; every other property is as
  -- declared, and so is what stands under every other key than "properties".
  pub as_mcp_tool-schema :
      (tool : ToolDefinition W) (confirm_writes : Bool) (j k : Str)
      → k ≢ str "properties"
      → (get_field
            (properties
              (Dict.get (as_mcp_tool tool confirm_writes).input_schema (str "properties")))
            j
          ≡ (if needs_confirmation tool confirm_writes
              then (if confirmation_arg == j
                  then some confirm_property
                  else get_field (properties (Dict.get tool.input_schema (str "properties"))) j)
              else get_field (properties (Dict.get tool.input_schema (str "properties"))) j))
        × (Dict.get (as_mcp_tool tool confirm_writes).input_schema k ≡ Dict.get tool.input_schema k)
  unfolding as_mcp_tool
  as_mcp_tool-schema tool confirm_writes j k other = (
    ground (
      arith,
      get-put tool.input_schema (str "properties") (str "properties") (
          dict (
            put_field (properties (Dict.get tool.input_schema (str "properties"))) confirmation_arg
              confirm_property)),
      str_beq_self (str "properties"),
      get_field-put_field (properties (Dict.get tool.input_schema (str "properties")))
          confirmation_arg j confirm_property,
    ),
    schema_key tool confirm_writes k other,
  )
