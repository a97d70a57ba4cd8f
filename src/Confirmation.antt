-- ===== src/Confirmation.antt =====
-- argus/mcp_server/confirmation.py: the fingerprint of a call, who confirms it, and the store of
-- pending confirmations. `sha256` stands for `hashlib.sha256(s.encode()).hexdigest()`. The time is
-- the clock's reading, and a new id's random part an argument. A method returns the new store.
pub mod Redeem
pub mod History
pub mod Book
pub mod Binding
pub mod Tests
use argus_mcp_server.Dict
use argus_mcp_server.Dict.{Dict}
use argus_mcp_server.Prelude.{
  ℕ, ◌+◌, Str, str, not, [], ◌∷◌, ◌++◌, Option, none, some, keep, take, leb, if◌then◌else◌, ◌==◌,
  str_eq, nonempty,
}
use argus_mcp_server.Values.{Value}
use argus_mcp_server.Values.Canonical.{write_object, quote, dumps_dict}

abbrev pub confirmation_ttl_seconds : ℕ
confirmation_ttl_seconds = 600

abbrev pub confirmation_arg : Str
confirmation_arg = str "confirmation_id"

-- `{k: v for k, v in arguments.items() if k != CONFIRMATION_ARG}`
unfoldable pub without_confirmation : Dict Value → Dict Value
without_confirmation arguments = keep (λ e. not (e.0 == confirmation_arg)) arguments

-- The text that is hashed.
unfoldable pub canonical : Str → Dict Value → Str
unfolding without_confirmation
canonical tool arguments =
    write_object (
      (str "tool", quote tool)
      ∷ (str "arguments", dumps_dict (without_confirmation arguments))
      ∷ [])

pub record Pending : Type 0 where
  pub digest : Str
  pub caller : Str
  pub expires_at : ℕ

pub record ConfirmationStore : Type 0 where
  pub ttl : ℕ
  pub pending : Dict Pending

abbrev pub empty_store : ConfirmationStore
empty_store = record { ttl = confirmation_ttl_seconds; pending = [] }

-- The reasons for which `redeem` refuses.
pub data Refusal : Type 0 where
  unknown_or_expired another_user arguments_differ : Refusal

unfoldable pub prune : ConfirmationStore → ℕ → ConfirmationStore
prune store now = record store { pending = keep (λ e. not (leb e.1.expires_at now)) store.pending }

module _ (sha256 : Str → Str) where
  unfoldable pub arguments_digest : Str → Dict Value → Str
  unfolding canonical
  arguments_digest tool arguments = sha256 (canonical tool arguments)

  unfoldable pub caller_key : Option Str → Option (Dict Str) → Str
  caller_key caller_token correlation =
      let token : Str = elim caller_token [ none ↦ [] | some t ↦ t ] in
      let fields : Dict Str = elim correlation [ none ↦ [] | some c ↦ c ] in
      let user_id : Str = elim (Dict.get fields (str "user_id")) [ none ↦ [] | some u ↦ u ] in
      if nonempty token
      then str "token:" ++ take 32 (sha256 token)
      else if nonempty user_id
      then str "user:" ++ user_id
      else str "anonymous"

  unfoldable pub issue :
      ConfirmationStore
      → (now : ℕ) (random : Str) → (tool : Str) (arguments : Dict Value) (caller : Str)
      → ConfirmationStore × Str
  unfolding prune
  issue store now random tool arguments caller =
      let confirmation_id = str "confirm-" ++ random in
      let pending : Pending = record {
        digest = arguments_digest tool arguments;
        caller = caller;
        expires_at = now + store.ttl;
      } in
      let pruned = prune store now in
      (record pruned { pending = Dict.put pruned.pending confirmation_id pending }, confirmation_id)

  -- The tests on the popped entry.
  unfoldable pub judge : Option Pending → Str → Dict Value → Str → Option Refusal
  judge none tool arguments caller = some unknown_or_expired
  judge (some pending) tool arguments caller =
      if not (pending.caller == caller)
      then some another_user
      else if not (pending.digest == arguments_digest tool arguments)
      then some arguments_differ
      else none

  -- `none` is the acceptance.
  unfoldable pub redeem :
      ConfirmationStore
      → (now : ℕ) (confirmation_id : Str) → (tool : Str) (arguments : Dict Value) (caller : Str)
      → ConfirmationStore × Option Refusal
  unfolding prune judge
  redeem store now confirmation_id tool arguments caller =
      let pruned = prune store now in
      let popped = Dict.get pruned.pending confirmation_id in
      (
        record pruned { pending = Dict.remove pruned.pending confirmation_id },
        judge popped tool arguments caller,
      )
