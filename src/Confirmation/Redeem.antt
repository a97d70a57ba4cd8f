-- ===== src/Confirmation/Redeem.antt =====
-- What `redeem` accepts, and what it and `issue` leave in the store.
use argus_mcp_server.Dict
use argus_mcp_server.Dict.{Dict, passing, get-put, get-remove, get-keep}
use argus_mcp_server.Prelude.{
  ℕ, ◌+◌, ◌<◌, Str, Bool, not, ◌++◌, Option, none, some, ◌≡◌, ◌↔◌, refl, arith, leb, if◌then◌else◌,
  ◌==◌, str_eq, str, str_beq_iff,
}
use argus_mcp_server.Values.{Value}
use argus_mcp_server.Confirmation.{
  Pending, ConfirmationStore, arguments_digest, prune, issue, redeem,
}

-- The dictionary of pending confirmations has one entry for an id.
abbrev pub IsStore : ConfirmationStore → Type 0
IsStore s = Dict.IsDict s.pending

abbrev pub unexpired : ℕ → Pending → Bool
unexpired now p = not (leb p.expires_at now)

pub prune-IsStore : (s : ConfirmationStore) (now : ℕ) → IsStore s → IsStore (prune s now)
unfolding prune
prune-IsStore s now h = Dict.keep-IsDict _ s.pending h

pub get-prune :
    (s : ConfirmationStore) (now : ℕ) (j : Str)
    → IsStore s
    → Dict.get (prune s now).pending j ≡ passing (unexpired now) (Dict.get s.pending j)
unfolding prune
get-prune s now j h = get-keep (unexpired now) s.pending j h

module _ (sha256 : Str → Str) (s : ConfirmationStore) (now : ℕ) where
  pub issue-IsStore :
      (random tool : Str) (arguments : Dict Value) (caller : Str)
      → IsStore s
      → IsStore (issue sha256 s now random tool arguments caller).0
  unfolding issue
  issue-IsStore random tool arguments caller h = Dict.put-IsDict _ _ _ (prune-IsStore s now h)

  pub redeem-IsStore :
      (confirmation_id tool : Str) (arguments : Dict Value) (caller : Str)
      → IsStore s
      → IsStore (redeem sha256 s now confirmation_id tool arguments caller).0
  unfolding redeem
  redeem-IsStore confirmation_id tool arguments caller h =
      Dict.remove-IsDict _ _ (prune-IsStore s now h)

  -- The store holds an unexpired entry under the id, of this caller and of these arguments.
  pub record Confirms (confirmation_id tool : Str) (arguments : Dict Value) (caller : Str)
      : Type 0 where
    pub entry : Pending
    pub held : Dict.get s.pending confirmation_id ≡ some entry
    pub in_time : now < entry.expires_at
    pub same_caller : entry.caller ≡ caller
    pub same_digest : entry.digest ≡ arguments_digest sha256 tool arguments

  Confirms-redeem :
      (confirmation_id tool : Str) (arguments : Dict Value) (caller : Str) (found : Option Pending)
      → IsStore s
      → Dict.get s.pending confirmation_id ≡ found
      → (redeem sha256 s now confirmation_id tool arguments caller).1 ≡ none
      → Confirms confirmation_id tool arguments caller
  unfolding redeem
  Confirms-redeem confirmation_id tool arguments caller none h e accepted =
      ground (arith, get-prune s now confirmation_id h)
  Confirms-redeem confirmation_id tool arguments caller (some p) h e accepted = record {
    entry = p;
    held = e;
    in_time = ground (arith, get-prune s now confirmation_id h);
    same_caller = ground (arith, get-prune s now confirmation_id h, str_beq_iff p.caller caller);
    same_digest = ground (
      arith,
      get-prune s now confirmation_id h,
      str_beq_iff p.digest (arguments_digest sha256 tool arguments),
    );
  }

  accept_of-Confirms :
      (confirmation_id tool : Str) (arguments : Dict Value) (caller : Str)
      → IsStore s
      → Confirms confirmation_id tool arguments caller
      → (redeem sha256 s now confirmation_id tool arguments caller).1 ≡ none
  unfolding redeem
  accept_of-Confirms confirmation_id tool arguments caller h c = ground (
    arith,
    c.held,
    c.in_time,
    get-prune s now confirmation_id h,
    str_beq_iff c.entry.caller caller,
    str_beq_iff c.entry.digest (arguments_digest sha256 tool arguments),
  )

  -- A confirmation is accepted exactly when the store holds an entry under its id that has not
  -- expired and was issued to the same caller, with the fingerprint of the same tool and arguments.
  pub redeem-Confirms :
      (confirmation_id tool : Str) (arguments : Dict Value) (caller : Str)
      → IsStore s
      → ((redeem sha256 s now confirmation_id tool arguments caller).1 ≡ none)
        ↔ Confirms confirmation_id tool arguments caller
  redeem-Confirms confirmation_id tool arguments caller h = (
    Confirms-redeem confirmation_id tool arguments caller _ h refl,
    accept_of-Confirms confirmation_id tool arguments caller h,
  )

  -- Whatever `redeem` answers, its id is gone afterwards; every other id keeps its entry unless that
  -- has expired.
  pub get-redeem :
      (confirmation_id tool : Str) (arguments : Dict Value) (caller j : Str)
      → IsStore s
      → Dict.get (redeem sha256 s now confirmation_id tool arguments caller).0.pending j
        ≡ (if confirmation_id == j then none else passing (unexpired now) (Dict.get s.pending j))
  unfolding redeem
  get-redeem confirmation_id tool arguments caller j h = rw (get-remove, get-prune s now j h)

  pub get-issue :
      (random tool : Str) (arguments : Dict Value) (caller j : Str)
      → IsStore s
      → Dict.get (issue sha256 s now random tool arguments caller).0.pending j ≡ (
          if str "confirm-" ++ random == j
          then some (record {
            digest = arguments_digest sha256 tool arguments;
            caller = caller;
            expires_at = now + s.ttl;
          })
          else passing (unexpired now) (Dict.get s.pending j))
  unfolding issue
  get-issue random tool arguments caller j h = rw (get-put, get-prune s now j h)
