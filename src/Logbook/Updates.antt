-- ===== src/Logbook/Updates.antt =====
-- What an update of a logbook entry sends back.
use mathlib.Core.Path.{subst}
use argus_mcp_server.Effects.{Effect, after_ok}
use argus_mcp_server.Errors.{Result, ok, raise, ◌>>=◌}
use argus_mcp_server.Http.{Http, Reply}
use argus_mcp_server.Logbook.{update_entry, get_raw, post_entry, post_call, fields_of}
use argus_mcp_server.Logbook.EntryId.{olog_entry_id}
use argus_mcp_server.Logbook.Record.{
  LogbookEntry, to_entry, merged, changes, set_given, set_content, set_source, is_none, named_value,
  names, names_result,
}
use argus_mcp_server.Logbook.Requests.{lift, json_of, require_configured, send}
use argus_mcp_server.Prelude.{
  Str, str, ◌++◌, Bool, true, false, not, ◌&&◌, ◌||◌, List, ◌≡◌, refl, sym, ◌∙◌, ap, arith, ◌==◌,
  str_eq, str_beq_iff, Bool-cases, inl, inr,
}
use argus_mcp_server.Registry.{put_field}
use argus_mcp_server.Registry.Register.{get_field, get_field-put_field}
use argus_mcp_server.Tools.Arguments.{iterate}
use argus_mcp_server.Values.{Value, Fields, null, dict}

set_given-get :
    (fs : Fields) (key : Str) (value : Value) (j : Str)
    → (not (is_none value) && j == key) ≡ false
    → get_field (set_given fs key value) j ≡ get_field fs j
set_given-get fs key value j h =
    ground (arith, h, get_field-put_field fs key j value, str_beq_iff key j, str_beq_iff j key)

set_source-get :
    (fs : Fields) (content : Value) (j : Str)
    → (j == str "source") ≡ false
    → get_field (set_source fs content) j ≡ get_field fs j
set_source-get fs content j h = ground (
  arith,
  h,
  get_field-put_field fs (str "source") j content,
  str_beq_iff (str "source") j,
  str_beq_iff j (str "source"),
)

set_content-get :
    (fs : Fields) (content : Value) (j : Str)
    → (not (is_none content) && (j == str "description" || j == str "source")) ≡ false
    → get_field (set_content fs content) j ≡ get_field fs j
set_content-get fs content j h = elim (Bool-cases (is_none content)) [
  | inl missing ↦ rw missing refl
  | inr given ↦ rw given (
      set_source-get (put_field fs (str "description") content) content j (ground (arith, h, given))
      ∙ ground (
        arith,
        h,
        given,
        get_field-put_field fs (str "description") j content,
        str_beq_iff (str "description") j,
        str_beq_iff j (str "description"),
      ))
]

names_result_given :
    (r : Result (List Value)) (v : Value) → names_result r ≡ ok v → is_none v ≡ false
unfolding names
names_result_given (ok vs) v e =
    subst (λ x. is_none x ≡ false) {x = names vs} {y = v} (ground (arith, e)) refl
names_result_given (raise x) v e = absurd (ground arith)

-- Names are None exactly where none are given.
named_value-none : (v names_v : Value) → named_value v ≡ ok names_v → is_none names_v ≡ is_none v
named_value-none v names_v e = elim (Bool-cases (is_none v)) [
  | inl missing ↦
      subst (λ x. is_none x ≡ is_none v) {x = null} {y = names_v} (ground (arith, e, missing))
        (sym missing)
  | inr present ↦ names_result_given (iterate v) names_v (ground (arith, e, present)) ∙ sym present
]

bind_ok :
    {A B : Type 0} (r : Result A) (next : A → Result B) (b : B)
    → r >>= next ≡ ok b
    → (a : A) × (r ≡ ok a) × (next a ≡ ok b)
bind_ok (ok a) next b e = (a, refl, e)
bind_ok (raise x) next b e = absurd (ground arith)

merged-Untouched :
    (fs changed : Fields) (title content logbooks tags : Value) (j : Str)
    → merged fs title content logbooks tags ≡ ok changed
    → changes title content logbooks tags j ≡ false
    → get_field changed j ≡ get_field fs j
unfolding merged
merged-Untouched fs changed title content logbooks tags j e h =
    let (in_logbooks, e₁, rest) = bind_ok (named_value logbooks) _ changed e in
    let (with_tags, e₂, same) = bind_ok (named_value tags) _ changed rest in
    let none₁ = named_value-none logbooks in_logbooks e₁ in
    let none₂ = named_value-none tags with_tags e₂ in
    let titled = set_given fs (str "title") title in
    let described = set_content titled content in
    let booked = set_given described (str "logbooks") in_logbooks in
    subst (λ x. get_field x j ≡ get_field fs j) {x = set_given booked (str "tags") with_tags}
      {y = changed} (ground (arith, same))
      (set_given-get booked (str "tags") with_tags j (ground (arith, h, none₂))
        ∙ set_given-get described (str "logbooks") in_logbooks j (ground (arith, h, none₁))
        ∙ set_content-get titled content j (ground (arith, h))
        ∙ set_given-get fs (str "title") title j (ground (arith, h)))

module _ {W : Type 0} where
  lift_ok :
      {A : Type 0} (r : Result A) (a : A) (w w' : W) → lift r w ≡ (ok a, w') → (r ≡ ok a) × (w ≡ w')
  lift_ok (ok b) a w w' e = (ground arith, ground arith)
  lift_ok (raise x) a w w' e = absurd (ground arith)

  configured_ok :
      (configured : Bool) (u : Unit {0}) (w w' : W)
      → require_configured configured w ≡ (ok u, w')
      → w ≡ w'
  configured_ok true u w w' e = ground arith
  configured_ok false u w w' e = absurd (ground arith)

fields_of_ok : (v : Value) (fs : Fields) → fields_of v ≡ ok fs → v ≡ dict fs
fields_of_ok (dict gs) fs e = ground arith
fields_of_ok _ fs e = absurd (ground arith)

module _ {W : Type 0} (http : Http W) (configured : Bool) (repr : Value → Str)
    (title content logbooks tags : Value) where
  abbrev pub read_of : (id : Str) → Effect W Value
  read_of id =
      get_raw http configured repr (str "Timeout updating logbook entry " ++ id)
        (str "update entry " ++ id) id

  abbrev pub post_of : (id : Str) → Fields → Effect W Reply
  post_of id changed =
      send http (str "Timeout updating logbook entry " ++ id) (str "update entry " ++ id)
        (post_call http configured repr id changed)

  post_entry_ok :
      (id : Str) (held : Fields) (entry : LogbookEntry) (w w' : W)
      → post_entry http configured repr id title content logbooks tags held w ≡ (ok entry, w')
      → (changed : Fields) × (merged held title content logbooks tags ≡ ok changed)
        × ((post_of id changed w).1 ≡ w')
  post_entry_ok id held entry w w' e =
      let (changed, w₁, e₁, rest) =
        after_ok _ (lift (merged held title content logbooks tags) w) entry w' e in
      let (reply, w₂, e₂, rest₂) = after_ok _ (post_of id changed w₁) entry w' rest in
      let (payload, w₃, e₃, rest₃) = after_ok _ (lift (json_of reply.json) w₂) entry w' rest₂ in
      let here = (lift_ok (merged held title content logbooks tags) changed w w₁ e₁).1 in
      let there =
        (lift_ok (json_of reply.json) payload w₂ w₃ e₃).1
        ∙ (lift_ok (to_entry repr payload) entry w₃ w' rest₃).1 in
      (
        changed,
        (lift_ok (merged held title content logbooks tags) changed w w₁ e₁).0,
        subst (λ x. (post_of id changed x).1 ≡ w') {x = w₁} {y = w} (sym here)
            (ap (λ (r : Result Reply × W). r.1) e₂ ∙ there),
      )

  -- An update that succeeds read the entry of the id and posted it back once, with every field
  -- untouched that it was not told to change: what the entry held under any key but those of the given
  -- title, text, logbooks and tags is what is posted under that key.
  pub update_entry-Untouched :
      (entry_id : Value) (entry : LogbookEntry) (w w' : W)
      → update_entry http configured repr entry_id title content logbooks tags w ≡ (ok entry, w')
      → (id : Str) × (held changed : Fields) × (w₁ : W) × (olog_entry_id repr entry_id ≡ ok id)
        × (read_of id w ≡ (ok (dict held), w₁))
        × ((post_of id changed w₁).1 ≡ w')
        × ((key : Str)
            → changes title content logbooks tags key ≡ false
            → get_field changed key ≡ get_field held key)
  unfolding update_entry
  update_entry-Untouched entry_id entry w w' e =
      let (u, w₀, e₀, rest₀) = after_ok _ (require_configured configured w) entry w' e in
      let (id, w₁, e₁, rest₁) = after_ok _ (lift (olog_entry_id repr entry_id) w₀) entry w' rest₀ in
      let (payload, w₂, e₂, rest₂) = after_ok _ (read_of id w₁) entry w' rest₁ in
      let (held, w₃, e₃, rest₃) = after_ok _ (lift (fields_of payload) w₂) entry w' rest₂ in
      let (known, same₁) = lift_ok (olog_entry_id repr entry_id) id w₀ w₁ e₁ in
      let (fields, same₂) = lift_ok (fields_of payload) held w₂ w₃ e₃ in
      let (changed, merging, posted) = post_entry_ok id held entry w₃ w' rest₃ in
      (
        id,
        held,
        changed,
        w₃,
        known,
        subst (λ x. read_of id x ≡ (ok (dict held), w₃)) {x = w₁} {y = w}
            (sym (configured_ok configured u w w₀ e₀ ∙ same₁))
            (e₂
              ∙ ap (λ (r : Value × W). (ok r.0, r.1)) {x = (payload, w₂)} {y = (dict held, w₃)}
                  (ground (arith, fields_of_ok payload held fields, same₂))),
        posted,
        λ key. merged-Untouched held changed title content logbooks tags key merging,
      )
