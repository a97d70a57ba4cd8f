-- ===== src/Tools/Writing.antt =====
-- What a write tool passes on to its service, and what it refuses before.
use mathlib.Core.Path.{subst}
use argus_mcp_server.Dict
use argus_mcp_server.Dict.{Dict}
use argus_mcp_server.Effects.{after_ok, pure_ok}
use argus_mcp_server.Errors.{argus, ErrorClass, ok, raise}
use argus_mcp_server.History.{Clock, HistoryProviders, update_logbook_entry}
use argus_mcp_server.Prelude.{
  Str, str, true, List, [], ◌∷◌, Option, none, some, ◌≡◌, refl, sym, ◌∙◌, arith, if◌then◌else◌,
  ◌==◌, str_eq, Option-cases, any, str_beq, str_beq_iff, inl, inr, ◌⊎◌,
}
use argus_mcp_server.Tools.Arguments.{arg, arg_or, nonempty_text, require}
use argus_mcp_server.Tools.History.{
  update_logbook_entry_handler, given, is_none, changeable, update_with, require_list,
  require_entry_id,
}
use argus_mcp_server.Tools.Pv.{PvServices, set_pv, require_pv_name, write_given}
use argus_mcp_server.Values.{Value, null, text}

module _ {W : Type 0} where
  require_ok :
      (message : Str) (o : Option Str) (s : Str) (w w' : W)
      → require message o w ≡ (ok s, w')
      → (o ≡ some s) × (w ≡ w')
  require_ok message none s w w' e = absurd (ground arith)
  require_ok message (some s') s w w' e = (ground arith, ground arith)

nonempty_text_of : (v : Value) (s : Str) → nonempty_text v ≡ some s → v ≡ text s
nonempty_text_of (text (c ∷ r)) s e = ground arith
nonempty_text_of _ s e = absurd (ground arith)

module _ {W : Type 0} (operations_service : PvServices W) (repr : Value → Str) where
  write_given_ok :
      (pv_name : Str) (given : Option Value) (result : Dict Value) (w w' : W)
      → write_given operations_service repr pv_name given w ≡ (ok result, w')
      → (value new_value : Value) × (given ≡ some value)
        × (operations_service.set_pv pv_name value w ≡ (ok new_value, w'))
  write_given_ok pv_name none result w w' e = absurd (ground arith)
  write_given_ok pv_name (some value) result w w' e =
      let (new_value, w₁, written, e₁) =
        after_ok _ (operations_service.set_pv pv_name value w) result w' e in
      (
        value,
        new_value,
        refl,
        subst (λ v. operations_service.set_pv pv_name value w ≡ (ok new_value, v))
            (pure_ok _ result w₁ w' e₁).1 written,
      )

  -- A set_pv that succeeds has written the value of the call to the PV of the call, once, and nothing
  -- else happened: the state is that which the operations service left.
  pub set_pv_ok :
      (arguments : Dict Value) (result : Dict Value) (w w' : W)
      → set_pv operations_service repr arguments w ≡ (ok result, w')
      → (pv_name : Str) × (value new_value : Value) × (arg arguments (str "pv_name") ≡ text pv_name)
        × (Dict.get arguments (str "value") ≡ some value)
        × (operations_service.set_pv pv_name value w ≡ (ok new_value, w'))
  unfolding set_pv require_pv_name
  set_pv_ok arguments result w w' e =
      let (pv_name, w₁, named, e₁) =
        after_ok
          (λ pv_name.
            write_given operations_service repr pv_name (Dict.get arguments (str "value")))
          (require_pv_name operations_service repr arguments w) result w' e in
      let (known, same) = require_ok _ _ pv_name w w₁ named in
      let (value, new_value, given, written) =
        write_given_ok pv_name (Dict.get arguments (str "value")) result w₁ w' e₁ in
      (
        pv_name,
        value,
        new_value,
        nonempty_text_of _ pv_name known,
        given,
        subst (λ v. operations_service.set_pv pv_name value v ≡ (ok new_value, w')) (sym same)
            written,
      )

  -- A set_pv without a PV name that is a text of its own, or without a value, is a ValidationError, and
  -- nothing is written.
  set_pv_refused :
      (arguments : Dict Value) (w : W)
      → (nonempty_text (arg arguments (str "pv_name")) ≡ none)
        ⊎ (Dict.get arguments (str "value") ≡ none)
      → (message : Str) × (set_pv operations_service repr arguments w
          ≡ (raise (argus ErrorClass.validation_error message), w))
  unfolding set_pv require_pv_name
  set_pv_refused arguments w (inl e) =
      (str "PV name cannot be empty and must be a string.", rw e refl)
  set_pv_refused arguments w (inr e) =
      elim (Option-cases (nonempty_text (arg arguments (str "pv_name")))) [
        | inl unnamed ↦ (str "PV name cannot be empty and must be a string.", rw unnamed refl)
        | inr (s, named) ↦ (str "Missing required argument: value", rw (named, e) refl)
      ]

null_of : (v : Value) → is_none v ≡ true → v ≡ null
null_of null e = refl
null_of _ e = absurd (ground arith)

-- The changes of an update hold, under each key that can change, what the arguments hold there.
arg-given :
    (ks : List Str) (arguments : Dict Value) (j : Str)
    → arg (given ks arguments) j ≡ (if any (λ k. k == j) ks then arg arguments j else null)
unfolding given arg_or Dict.get
arg-given [] arguments j = refl
arg-given (k ∷ ks) arguments j =
    ground (arith, arg-given ks arguments j, str_beq_iff k j, null_of (arg arguments k))

module _ {W R : Type 0} where
  same_call :
      (call : Value → Value → Value → Value → Value → W → R) {i i' a a' b b' c c' d d' : Value}
      {w w' : W} {r : R}
      → i ≡ i'
      → a' ≡ a
      → b' ≡ b
      → c' ≡ c
      → d' ≡ d
      → w ≡ w'
      → call i' a' b' c' d' w' ≡ r
      → call i a b c d w ≡ r
  same_call call e e₁ e₂ e₃ e₄ e₅ sent = cc

kept :
    (arguments : Dict Value) (k : Str)
    → any (λ j. j == k) changeable ≡ true
    → arg (given changeable arguments) k ≡ arg arguments k
kept arguments k e = ground (arith, arg-given changeable arguments k, e)

module _ {W Time : Type 0} (clock : Clock Time) (history_service : HistoryProviders W Time)
    (fromisoformat : Str → Option Time) (repr : Value → Str) where
  require_list_ok :
      (key : Str) (o : Option Value) (u : Unit {0}) (w w' : W)
      → require_list clock history_service fromisoformat repr key o w ≡ (ok u, w')
      → w ≡ w'
  require_list_ok key none u w w' e = ground arith
  require_list_ok key (some v) u w w' e = ground arith

  update_with_ok :
      (entry_id : Value) (changes : Dict Value) (result : Dict Value) (w w' : W)
      → update_with clock history_service fromisoformat repr entry_id changes w ≡ (ok result, w')
      → history_service.update_entry entry_id
          (arg changes (str "title"))
          (arg changes (str "text"))
          (arg changes (str "logbooks"))
          (arg changes (str "tags"))
          w
        ≡ (ok result, w')
  unfolding update_logbook_entry
  update_with_ok entry_id [] result w w' e = absurd (ground arith)
  update_with_ok entry_id (c ∷ cs) result w w' e =
      let (u, w₁, books, e₁) =
        after_ok _
          (require_list clock history_service fromisoformat repr (str "logbooks")
            (Dict.get (c ∷ cs) (str "logbooks")) w)
          result w' e in
      let (v, w₂, tags, e₂) =
        after_ok _
          (require_list clock history_service fromisoformat repr (str "tags")
            (Dict.get (c ∷ cs) (str "tags")) w₁)
          result w' e₁ in
      subst
        (λ v.
          history_service.update_entry entry_id (arg (c ∷ cs) (str "title"))
            (arg (c ∷ cs) (str "text")) (arg (c ∷ cs) (str "logbooks")) (arg (c ∷ cs) (str "tags"))
            v
          ≡ (ok result, w'))
        (sym (
          require_list_ok (str "logbooks") _ u w w₁ books
          ∙ require_list_ok (str "tags") _ v w₁ w₂ tags))
        e₂

  entry_id_ok :
      (arguments : Dict Value) (entry_id : Value) (w w' : W)
      → require_entry_id clock history_service fromisoformat repr arguments w ≡ (ok entry_id, w')
      → (arg arguments (str "entry_id") ≡ entry_id) × (w ≡ w')
  entry_id_ok arguments entry_id w w' e = (ground arith, ground arith)

  -- An update that succeeds has asked the logbook to change the entry of the call with the
  -- title, text, logbooks and tags of the call, None where the call gives none, and nothing else
  -- happened: result and state are those of that one request.
  pub update_ok :
      (arguments : Dict Value) (result : Dict Value) (w w' : W)
      → update_logbook_entry_handler clock history_service fromisoformat repr arguments w
        ≡ (ok result, w')
      → history_service.update_entry
          (arg arguments (str "entry_id"))
          (arg arguments (str "title"))
          (arg arguments (str "text"))
          (arg arguments (str "logbooks"))
          (arg arguments (str "tags"))
          w
        ≡ (ok result, w')
  unfolding update_logbook_entry_handler str_beq
  update_ok arguments result w w' e =
      let (entry_id, w₁, known, e₁) =
        after_ok
          (λ entry_id.
            update_with clock history_service fromisoformat repr entry_id
              (given changeable arguments))
          (require_entry_id clock history_service fromisoformat repr arguments w) result w' e in
      let (same_id, same) = entry_id_ok arguments entry_id w w₁ known in
      let sent = update_with_ok entry_id (given changeable arguments) result w₁ w' e₁ in
      same_call history_service.update_entry same_id (kept arguments (str "title") refl)
        (kept arguments (str "text") refl) (kept arguments (str "logbooks") refl)
        (kept arguments (str "tags") refl) same sent
