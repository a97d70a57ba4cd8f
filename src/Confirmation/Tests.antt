-- ===== src/Confirmation/Tests.antt =====
-- The store on small inputs, with a hash that keeps its text.
use argus_mcp_server.Dict
use argus_mcp_server.Dict.{Dict, passing}
use argus_mcp_server.Prelude.{
  Str, str, List, [], ◌∷◌, none, some, ◌≡◌, refl, arith, str_eq, str_beq, join, str_leb,
  str_beq_iff,
}
use argus_mcp_server.Values.{Value, text}
use argus_mcp_server.Values.Canonical.{write_object, dumps_dict}
use argus_mcp_server.Values.Canonical.Order.{SameLookups}
use argus_mcp_server.Confirmation.{
  ConfirmationStore, empty_store, another_user, arguments_differ, arguments_digest, issue, redeem,
  without_confirmation, canonical, caller_key,
}
use argus_mcp_server.Confirmation.Binding.{IsRequest, SameRequest, redeem-SameRequest}
use argus_mcp_server.Confirmation.Book
use argus_mcp_server.Confirmation.History.{
  SameCall, arguments_digest-SameCall, redeem-issue, run-IsJustified, run, ask, confirm,
  IsJustified,
}

abbrev plain_hash : Str → Str
plain_hash s = s

abbrev set_current : Dict Value
set_current = (str "pv_name", text (str "QF12:CURRENT_SP")) ∷ (str "value", text (str "4")) ∷ []

abbrev set_current_confirmed : Dict Value
set_current_confirmed =
    (str "value", text (str "4"))
    ∷ (str "confirmation_id", text (str "confirm-abc"))
    ∷ (str "pv_name", text (str "QF12:CURRENT_SP"))
    ∷ []

abbrev set_other : Dict Value
set_other = (str "pv_name", text (str "QF13:CURRENT_SP")) ∷ (str "value", text (str "4")) ∷ []

abbrev asked : ConfirmationStore
asked =
    (issue plain_hash empty_store 100 (str "abc") (str "set_pv") set_current (str "anonymous")).0

program : Unit {0}
unfolding issue redeem arguments_digest canonical caller_key write_object dumps_dict join str_leb
    Dict.get Dict.put Dict.remove str_beq
program = tt

canonical_text :
    canonical (str "set_pv") set_current_confirmed
    ≡ str "{\"arguments\":{\"pv_name\":\"QF12:CURRENT_SP\",\"value\":\"4\"},\"tool\":\"set_pv\"}"
unfolding program
canonical_text = refl

redeem_other_arguments :
    (redeem plain_hash asked 200 (str "confirm-abc") (str "set_pv") set_other (str "anonymous")).1
    ≡ some arguments_differ
unfolding program
redeem_other_arguments = refl

redeem_other_user :
    (redeem plain_hash asked 200 (str "confirm-abc") (str "set_pv") set_current (str "user:7")).1
    ≡ some another_user
unfolding program
redeem_other_user = refl

same_call_lookups :
    SameLookups (without_confirmation set_current) (without_confirmation set_current_confirmed)
unfolding without_confirmation Dict.get str_beq
same_call_lookups k = ground (arith, str_beq_iff (str "pv_name") k, str_beq_iff (str "value") k)

same_call : SameCall set_current set_current_confirmed
unfolding without_confirmation Dict.get str_beq
same_call = record {
  first = (refl, (refl, tt));
  second = (refl, (refl, tt));
  lookups = same_call_lookups;
}

redeem-issue_example :
    (redeem plain_hash asked 699
      (str "confirm-abc")
      (str "set_pv")
      set_current_confirmed
      (str "anonymous")).1
    ≡ none
redeem-issue_example =
    redeem-issue plain_hash empty_store 100 699 (str "abc") (str "set_pv") set_current
      set_current_confirmed (str "anonymous") tt same_call

arguments_digest-SameCall_example :
    arguments_digest plain_hash (str "set_pv") set_current
    ≡ arguments_digest plain_hash (str "set_pv") set_current_confirmed
arguments_digest-SameCall_example =
    arguments_digest-SameCall plain_hash (str "set_pv") set_current set_current_confirmed same_call

run-IsJustified_example :
    IsJustified
      (run plain_hash
        (record { store = empty_store; log = [] })
        (ask 100 (str "abc") (str "set_pv") set_current (str "anonymous")
          ∷ confirm 150 (str "confirm-abc") (str "set_pv") set_current_confirmed (str "anonymous")
          ∷ confirm 160 (str "confirm-abc") (str "set_pv") set_current_confirmed (str "anonymous")
          ∷ [])).log
run-IsJustified_example = run-IsJustified plain_hash (
    ask 100 (str "abc") (str "set_pv") set_current (str "anonymous")
    ∷ confirm 150 (str "confirm-abc") (str "set_pv") set_current_confirmed (str "anonymous")
    ∷ confirm 160 (str "confirm-abc") (str "set_pv") set_current_confirmed (str "anonymous")
    ∷ [])

-- One id is used in time by its caller, and another after it expired.
abbrev requests : List Book.Request
requests =
    Book.ask 100 (str "abc") (str "set_pv") set_current (str "anonymous")
    ∷ Book.ask 200 (str "def") (str "set_pv") set_other (str "anonymous")
    ∷ Book.confirm 300 (str "confirm-abc") (str "set_pv") set_current_confirmed (str "anonymous")
    ∷ Book.confirm 900 (str "confirm-def") (str "set_pv") set_other (str "anonymous")
    ∷ []

answers-book_example :
    Book.answers plain_hash empty_store requests
    ≡ Book.book_answers plain_hash 600 (λ id. none) requests
answers-book_example =
    Book.answers-book plain_hash requests 0
      (omega arith, (omega arith, (omega arith, (omega arith, tt))))

set_current-IsRequest : IsRequest (str "set_pv") set_current
unfolding without_confirmation Dict.get str_beq
set_current-IsRequest = (omega arith, ((refl, (refl, tt)), omega arith))

set_current_confirmed-IsRequest : IsRequest (str "set_pv") set_current_confirmed
unfolding without_confirmation Dict.get str_beq
set_current_confirmed-IsRequest = (omega arith, ((refl, (refl, tt)), omega arith))

redeem-SameRequest_example :
    (str "anonymous" ≡ str "anonymous")
    × SameRequest (str "set_pv") set_current (str "set_pv") set_current_confirmed
unfolding program
redeem-SameRequest_example =
    redeem-SameRequest plain_hash empty_store 100 200 (str "abc") (str "set_pv") (str "set_pv")
      set_current set_current_confirmed (str "anonymous") (str "anonymous") tt set_current-IsRequest
      set_current_confirmed-IsRequest (λ same. same) refl
