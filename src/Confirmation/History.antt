-- ===== src/Confirmation/History.antt =====
-- Runs of the confirmation store: the two calls of one write, and any sequence of calls. The clock
-- readings of the calls are arbitrary.
use argus_mcp_server.Dict
use argus_mcp_server.Dict.{Dict}
use argus_mcp_server.Prelude.{
  ℕ, ◌+◌, ◌<◌, Str, str, List, [], ◌∷◌, ◌++◌, Option, none, some, ◌≡◌, refl, ◌∙◌, arith, ltb,
  if◌then◌else◌, ◌==◌, str_eq, str_beq_iff, str_beq_self, Bool-cases, inl, inr, false,
}
use argus_mcp_server.Values.{Value}
use argus_mcp_server.Values.Canonical.Order.{SameLookups, dumps_dict-SameLookups}
use argus_mcp_server.Confirmation.{
  Pending, ConfirmationStore, Refusal, unknown_or_expired, arguments_digest, without_confirmation,
  issue, redeem, empty_store,
}
use argus_mcp_server.Confirmation.Redeem.{
  IsStore, get-issue, get-redeem, issue-IsStore, redeem-IsStore, redeem-Confirms, get-prune,
}

-- The same arguments, in any order, with or without a `confirmation_id`.
pub record SameCall (a b : Dict Value) : Type 0 where
  pub first : Dict.IsDict (without_confirmation a)
  pub second : Dict.IsDict (without_confirmation b)
  pub lookups : SameLookups (without_confirmation a) (without_confirmation b)

module _ (sha256 : Str → Str) where
  -- The fingerprint does not show the order of the arguments, nor a `confirmation_id` among them.
  pub arguments_digest-SameCall :
      (tool : Str) (a b : Dict Value)
      → SameCall a b
      → arguments_digest sha256 tool a ≡ arguments_digest sha256 tool b
  unfolding arguments_digest
  arguments_digest-SameCall tool a b same =
      rw (dumps_dict-SameLookups _ _ same.first same.second same.lookups)

  -- A call that is issued an id at one time and repeated with that id at another, by the same
  -- caller, for the same tool and the same arguments in any order, is accepted if the time to live
  -- has not passed, and is unknown or expired otherwise.
  pub redeem-issue :
      (s : ConfirmationStore) (issued_at redeemed_at : ℕ) (random tool : Str) (a b : Dict Value)
      (caller : Str)
      → IsStore s
      → SameCall a b
      → (redeem sha256
          (issue sha256 s issued_at random tool a caller).0
          redeemed_at
          (str "confirm-" ++ random)
          tool
          b
          caller).1
        ≡ (if ltb redeemed_at (issued_at + s.ttl) then none else some unknown_or_expired)
  unfolding redeem
  redeem-issue s issued_at redeemed_at random tool a b caller h same =
      let s' = (issue sha256 s issued_at random tool a caller).0 in
      let id = str "confirm-" ++ random in
      ground (
        arith,
        get-prune s' redeemed_at id (issue-IsStore sha256 s issued_at random tool a caller h),
        get-issue sha256 s issued_at random tool a caller id h,
        arguments_digest-SameCall tool a b same,
        str_beq_self id,
        str_beq_self caller,
        str_beq_self (arguments_digest sha256 tool b),
      )

-- What is remembered of a run: an id that was handed out, and a call that was let through.
pub data Event : Type 0 where
  issued : (id digest caller : Str) (expires_at : ℕ) → Event
  accepted : (id digest caller : Str) (at : ℕ) → Event

abbrev pub event_id : Event → Str
event_id (issued id _ _ _) = id
event_id (accepted id _ _ _) = id

-- The newest event about an id; the newest event stands first.
unfoldable pub last_about : Str → List Event → Option Event
last_about id [] = none
last_about id (e ∷ log) = if event_id e == id then some e else last_about id log

-- A call on the store.
pub data Call : Type 0 where
  ask : (now : ℕ) (random tool : Str) (arguments : Dict Value) (caller : Str) → Call
  confirm : (now : ℕ) (id tool : Str) (arguments : Dict Value) (caller : Str) → Call

pub record Run : Type 0 where
  pub store : ConfirmationStore
  pub log : List Event

module _ (sha256 : Str → Str) where
  abbrev record_acceptance : Option Refusal → Event → List Event → List Event
  record_acceptance none e log = e ∷ log
  record_acceptance (some _) e log = log

  unfoldable pub step : Run → Call → Run
  step r (ask now random tool arguments caller) =
      let (store, id) = issue sha256 r.store now random tool arguments caller in
      record {
        store = store;
        log = issued id (arguments_digest sha256 tool arguments) caller (now + r.store.ttl) ∷ r.log;
      }
  step r (confirm now id tool arguments caller) =
      let (store, refusal) = redeem sha256 r.store now id tool arguments caller in
      record {
        store = store;
        log =
            record_acceptance refusal
              (accepted id (arguments_digest sha256 tool arguments) caller now) r.log;
      }

  unfoldable pub run : Run → List Call → Run
  run r [] = r
  run r (c ∷ calls) = run (step r c) calls

-- Each acceptance answers the newest event about its id, which handed the id out, to the same caller
-- and for the same fingerprint, with the expiry still ahead.
abbrev pub IsJustified : List Event → Type 0
IsJustified [] = Unit
IsJustified (issued _ _ _ _ ∷ log) = IsJustified log
IsJustified (accepted id digest caller at ∷ log) =
    ((expires_at : ℕ) × (last_about id log ≡ some (issued id digest caller expires_at))
      × (at < expires_at))
    × IsJustified log

-- Each pending entry stands for the newest event about its id.
abbrev IsBacked : Run → Type 0
IsBacked r =
    (id : Str) (p : Pending)
    → Dict.get r.store.pending id ≡ some p
    → last_about id r.log ≡ some (issued id p.digest p.caller p.expires_at)

record IsSound (r : Run) : Type 0 where
  is_store : IsStore r.store
  backed : IsBacked r
  justified : IsJustified r.log

module _ (sha256 : Str → Str) where
  ask-IsBacked :
      (r : Run) (now : ℕ) (random tool : Str) (arguments : Dict Value) (caller : Str)
      → IsSound r
      → IsBacked (step sha256 r (ask now random tool arguments caller))
  unfolding step last_about issue
  ask-IsBacked r now random tool arguments caller h id p held = ground (
    arith,
    get-issue sha256 r.store now random tool arguments caller id h.is_store,
    h.backed id p,
    str_beq_iff (str "confirm-" ++ random) id,
  )

  record_acceptance-last :
      (o : Option Refusal) (e : Event) (log : List Event) (id : Str)
      → (event_id e == id) ≡ false
      → last_about id (record_acceptance sha256 o e log) ≡ last_about id log
  unfolding last_about
  record_acceptance-last none e log id h = rw h
  record_acceptance-last (some x) e log id h = refl

  confirm-IsBacked :
      (r : Run) (now : ℕ) (id tool : Str) (arguments : Dict Value) (caller : Str)
      → IsSound r
      → IsBacked (step sha256 r (confirm now id tool arguments caller))
  unfolding step
  confirm-IsBacked r now id tool arguments caller h j p held = elim (Bool-cases (id == j)) [
    | inl same ↦ ground (arith, get-redeem sha256 r.store now id tool arguments caller j h.is_store)
    | inr other ↦
        record_acceptance-last (redeem sha256 r.store now id tool arguments caller).1
          (accepted id (arguments_digest sha256 tool arguments) caller now) r.log j other
        ∙ h.backed j p
            (ground (arith, get-redeem sha256 r.store now id tool arguments caller j h.is_store))
  ]

  confirm-IsJustified :
      (r : Run) (now : ℕ) (id tool : Str) (arguments : Dict Value) (caller : Str)
      → IsSound r
      → (o : Option Refusal) → (redeem sha256 r.store now id tool arguments caller).1 ≡ o
      → IsJustified (
          record_acceptance sha256 o
            (accepted id (arguments_digest sha256 tool arguments) caller now)
            r.log)
  confirm-IsJustified r now id tool arguments caller h (some x) e = h.justified
  confirm-IsJustified r now id tool arguments caller h none e =
      let c = (redeem-Confirms sha256 r.store now id tool arguments caller h.is_store).0 e in
      (
        (
          c.entry.expires_at,
          ground (arith, h.backed id c.entry c.held, c.same_caller, c.same_digest),
          c.in_time,
        ),
        h.justified,
      )

  step-IsSound : (r : Run) (c : Call) → IsSound r → IsSound (step sha256 r c)
  unfolding step
  step-IsSound r (ask now random tool arguments caller) h = record {
    is_store = issue-IsStore sha256 r.store now random tool arguments caller h.is_store;
    backed = ask-IsBacked r now random tool arguments caller h;
    justified = h.justified;
  }
  step-IsSound r (confirm now id tool arguments caller) h = record {
    is_store = redeem-IsStore sha256 r.store now id tool arguments caller h.is_store;
    backed = confirm-IsBacked r now id tool arguments caller h;
    justified = confirm-IsJustified r now id tool arguments caller h _ refl;
  }

  run-IsSound : (r : Run) (calls : List Call) → IsSound r → IsSound (run sha256 r calls)
  unfolding run
  run-IsSound r [] h = h
  run-IsSound r (c ∷ calls) h = run-IsSound (step sha256 r c) calls (step-IsSound r c h)

  -- In every sequence of calls on a fresh store, at any clock readings, a call is let through only on
  -- an id whose newest event is that it was handed out: to the same caller, for the same fingerprint,
  -- and with the expiry still ahead. So no id is accepted twice for one issue.
  pub run-IsJustified :
      (calls : List Call)
      → IsJustified (run sha256 (record { store = empty_store; log = [] }) calls).log
  unfolding Dict.get
  run-IsJustified calls =
      (run-IsSound (record { store = empty_store; log = [] }) calls
        (record { is_store = tt; backed = λ id p e. cc; justified = tt })).justified
