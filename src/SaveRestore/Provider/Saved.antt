-- ===== src/SaveRestore/Provider/Saved.antt =====
-- What a snapshot saves, and how a request fails.
use argus_mcp_server.Effects.{after_ok, pure_ok}
use argus_mcp_server.Errors.{argus, ErrorClass, Result, ok, raise}
use argus_mcp_server.Http.{
  Http, Call, Ended, Reply, answered, timed_out, failed, is_success, Method,
}
use argus_mcp_server.Prelude.{
  ℕ, Str, str, ◌++◌, Bool, true, false, List, [], ◌∷◌, Option, none, some, ◌≡◌, ◌≤◌, ◌<◌, refl,
  arith, Bool-cases, inl, inr, ◌⊎◌, leb, or_else,
}
use argus_mcp_server.SaveRestore.Decode.{to_snapshot_values}
use argus_mcp_server.SaveRestore.Nodes.{SnrNode, SnrSnapshotValue}
use argus_mcp_server.SaveRestore.Provider.{
  take_snapshot, save_items, get_call, put_call, snapshot_body, node_at,
}
use argus_mcp_server.SaveRestore.Provider.Requests.{
  request, require_configured, shaped, lift, outcome, refusal, refused_for, reason_of, json_of,
}
use argus_mcp_server.Tools.Arguments.{listed}
use argus_mcp_server.Values.{Value, Items, list, text, dict, field, end}

module _ {W : Type 0} where
  lift_ok :
      {A : Type 0} (r : Result A) (a : A) (w w' : W) → lift r w ≡ (ok a, w') → (r ≡ ok a) × (w ≡ w')
  lift_ok (ok b) a w w' e = (ground arith, ground arith)
  lift_ok (raise x) a w w' e = absurd (ground arith)

  shaped_ok :
      {A : Type 0} (why : Value → Str) (what : Str) (payload : Value) (o : Option A) (a : A)
      (w w' : W)
      → shaped why what payload o w ≡ (ok a, w')
      → w ≡ w'
  shaped_ok why what payload none a w w' e = absurd (ground arith)
  shaped_ok why what payload (some b) a w w' e = ground arith

  configured_ok :
      (configured : Bool) (u : Unit {0}) (w w' : W)
      → require_configured configured w ≡ (ok u, w')
      → w ≡ w'
  configured_ok true u w w' e = ground arith
  configured_ok false u w w' e = absurd (ground arith)

module _ {W : Type 0} (http : Http W) (configured : Bool) (why : Value → Str) (local_time : ℕ → ℕ)
    (repr : Str → Str) (config_id name comment : Str) where
  abbrev pub put_items : Items → Call
  put_items items = put_call (str "/snapshot") config_id (snapshot_body name items comment)

  -- PUT /snapshot?parentNodeId=<config> with the node, of the name and the comment, the name again where
  -- the comment is empty, and the items.
  abbrev pub IsSaveOf : Items → Call → Type 0
  IsSaveOf items call =
      (call.method ≡ Method.put)
      × (call.path ≡ str "/snapshot")
      × (call.params ≡ (str "parentNodeId", config_id) ∷ [])
      × (call.json
          ≡ some (
              dict (
                field (str "snapshotNode")
                  (dict (
                    field (str "name") (text name) (
                      field (str "nodeType") (text (str "SNAPSHOT"))
                        (field (str "description") (text (or_else (some comment) name)) end))))
                  (field (str "snapshotData") (dict (field (str "snapshotItems") (list items) end))
                    end))))

  save_items_ok :
      (read : Value) (node : SnrNode) (values : List SnrSnapshotValue) (w w' : W)
      → save_items http configured why local_time repr config_id name comment read w
        ≡ (ok (node, values), w')
      → (items : Items) × (read ≡ list items)
        × (to_snapshot_values (listed items) ≡ ok values)
        × ((http (put_items items) w).1 ≡ w')
  unfolding request
  save_items_ok (list items) node values w w' e =
      let (payload, w₁, put, e₁) =
        after_ok _ (request http (put_items items) w) (node, values) w' e in
      let (node', w₂, decoded, e₂) =
        after_ok _
          (shaped why (str "snapshot") payload (node_at local_time (str "snapshotNode") payload) w₁)
          (node, values) w' e₁ in
      let (values', w₃, shown, e₃) =
        after_ok _ (lift (to_snapshot_values (listed items)) w₂) (node, values) w' e₂ in
      let (same, there) = pure_ok (node', values') (node, values) w₃ w' e₃ in
      let (valued, here) = lift_ok (to_snapshot_values (listed items)) values' w₂ w₃ shown in
      (
        items,
        refl,
        ground (arith, valued, same),
        ground (
          arith,
          put,
          shaped_ok why (str "snapshot") payload (node_at local_time (str "snapshotNode") payload)
              node' w₁ w₂ decoded,
          here,
          there,
        ),
      )
  save_items_ok _ node values w w' e = absurd (ground arith)

  -- A snapshot that is taken saves exactly what the service read: the items of the answer to
  -- GET /take-snapshot/<config> are those that PUT /snapshot sends under the configuration, with the
  -- given name, and the comment as the description, or the name where that is empty; the values that are
  -- shown are those of the items; and the state is that which these two requests left.
  pub take_snapshot_saves :
      (node : SnrNode) (values : List SnrSnapshotValue) (w w' : W)
      → take_snapshot http configured why local_time repr config_id name comment w
        ≡ (ok (node, values), w')
      → (items : Items) × (call : Call) × (w₁ : W) × (request http
            (get_call (str "/take-snapshot/" ++ config_id) [])
            w
          ≡ (ok (list items), w₁))
        × (to_snapshot_values (listed items) ≡ ok values)
        × IsSaveOf items call
        × ((http call w₁).1 ≡ w')
  unfolding take_snapshot
  take_snapshot_saves node values w w' e =
      let (u, w₀, set, e₀) = after_ok _ (require_configured configured w) (node, values) w' e in
      let (read, w₁, got, e₁) =
        after_ok (save_items http configured why local_time repr config_id name comment)
          (request http (get_call (str "/take-snapshot/" ++ config_id) []) w₀) (node, values) w'
          e₀ in
      let (items, listed_items, valued, put) = save_items_ok read node values w₁ w' e₁ in
      (
        items,
        put_items items,
        w₁,
        ground (arith, got, listed_items, configured_ok configured u w w₀ set),
        valued,
        (refl, refl, refl, refl),
        put,
      )

-- The class of the error for each way in which a request can end.
abbrev pub Fits : Ended → ErrorClass → Type 0
Fits timed_out c = c ≡ ErrorClass.saverestore_timeout
Fits (failed detail) c = c ≡ ErrorClass.saverestore_unavailable
Fits (answered reply) c =
    ((500 ≤ reply.status) × (c ≡ ErrorClass.saverestore_unavailable))
    ⊎ ((reply.status < 500)
        × (is_success reply.status ≡ false)
        × (c ≡ ErrorClass.saverestore_refused))

refused_class :
    (call : Call) (reply : Reply) (v : Value) (c : ErrorClass) (message : Str)
    → refused_for call reply v ≡ argus c message
    → c ≡ ErrorClass.saverestore_refused
refused_class call reply (text (d ∷ s)) c message e = ground arith
refused_class call reply v c message e = ground arith

json_raises :
    (o : Option Value) (c : ErrorClass) (message : Str) → ¬ (json_of o ≡ raise (argus c message))
json_raises none c message e = absurd (ground arith)
json_raises (some v) c message e = absurd (ground arith)

-- An error of the program that a request raises is of the class that fits how it ended: a timeout, an
-- unreachable or failing service (status 500 and above), or a refusal (any other status but success).
outcome-Fits :
    (call : Call) (ended : Ended) (c : ErrorClass) (message : Str)
    → outcome call ended ≡ raise (argus c message)
    → Fits ended c
unfolding outcome refusal
outcome-Fits call timed_out c message e = ground arith
outcome-Fits call (failed detail) c message e = ground arith
outcome-Fits call (answered reply) c message e = elim (Bool-cases (is_success reply.status)) [
  | inl well ↦ absurd (json_raises reply.json c message (ground (arith, e, well)))
  | inr not_well ↦ elim (Bool-cases (leb 500 reply.status)) [
    | inl down ↦ inl (ground (arith, down), ground (arith, e, not_well, down))
    | inr refused ↦ inr (
      ground (arith, refused),
      not_well,
      refused_class call reply (reason_of reply reply.json) c message
          (ground (arith, e, not_well, refused)),
    )
  ]
]
