-- ===== src/Confirmation/Binding.antt =====
-- What the text that is hashed determines of a call.
use mathlib.Core.Option
use mathlib.Core.Path.{subst}
use argus_mcp_server.Dict
use argus_mcp_server.Dict.{Dict}
use argus_mcp_server.Prelude.{
  ℕ, ◌+◌, Str, str, ◌++◌, [], ◌∷◌, Option, none, some, All, ◌==◌, str_eq, str_beq_self, str_leb,
  ◌≡◌, refl, ap, sym, ◌∙◌, arith, Bool-cases, inl, inr,
}
use argus_mcp_server.Values.{Value, text}
use argus_mcp_server.Values.Canonical.{
  quote, insert_entry, sort_entries, write_sorted, write_object, dumps, dumps_dict,
}
use argus_mcp_server.Values.Canonical.Literals.{IsScalar}
use argus_mcp_server.Values.Canonical.Cut.{Passes, quote-Passes}
use argus_mcp_server.Values.Canonical.Members.{
  IsMember, quote-injective, write_sorted-injective, write_sorted-Passes,
}
use argus_mcp_server.Values.Canonical.Dumps.{
  IsJsonDict, IsJson, dumps-text, sorted-IsMember, dumps_dict-injective,
}
use argus_mcp_server.Confirmation.{
  Pending, ConfirmationStore, without_confirmation, canonical, arguments_digest, issue, redeem,
}
use argus_mcp_server.Confirmation.Redeem.{IsStore, issue-IsStore, get-issue, redeem-Confirms}

-- The name of a tool and the arguments of a call, as JSON gives them.
abbrev pub IsRequest : Str → Dict Value → Type 0
IsRequest tool arguments = All IsScalar tool × IsJsonDict (without_confirmation arguments)

-- The same tool, and under every key of the arguments a value of the same text, which for a text is the
-- same text.
pub record SameRequest (tool : Str) (a : Dict Value) (tool' : Str) (b : Dict Value) : Type 0 where
  pub same_tool : tool ≡ tool'
  pub same_values :
      (k : Str)
      → Option.map dumps (Dict.get (without_confirmation a) k)
        ≡ Option.map dumps (Dict.get (without_confirmation b) k)
  pub same_texts :
      (k s : Str)
      → Dict.get (without_confirmation a) k ≡ some (text s)
      → Dict.get (without_confirmation b) k ≡ some (text s)

abbrev parts : (tool : Str) → Dict Value → Dict Str
parts tool arguments =
    (str "arguments", dumps_dict (without_confirmation arguments)) ∷ (str "tool", quote tool) ∷ []

canonical-parts : (tool : Str) (a : Dict Value) → canonical tool a ≡ write_sorted (parts tool a)
unfolding canonical write_object sort_entries insert_entry str_leb
canonical-parts tool a = refl

dumps_dict-Passes : (d : Dict Value) → IsJsonDict d → Passes (dumps_dict d)
unfolding dumps_dict write_object
dumps_dict-Passes d h = write_sorted-Passes _ (sorted-IsMember d h)

parts-IsMember : (tool : Str) (a : Dict Value) → IsRequest tool a → All IsMember (parts tool a)
parts-IsMember tool a h = (
  (omega arith, dumps_dict-Passes (without_confirmation a) h.1),
  ((omega arith, quote-Passes tool), tt),
)

get-IsJson :
    (d : Dict Value) (k : Str) (v : Value)
    → All (λ (e : Str × Value). All IsScalar e.0 × IsJson e.1) d
    → Dict.get d k ≡ some v
    → IsJson v
unfolding Dict.get
get-IsJson [] k v h e = absurd (ground (arith, e))
get-IsJson ((j, w) ∷ d) k v h e = elim (Bool-cases (j == k)) [
  | inl same ↦ subst IsJson (ground (arith, same, e)) h.0.1
  | inr other ↦ get-IsJson d k v h.1 (ground (arith, other, e))
]

some_injective : {A : Type 0} (a b : A) → ◌≡◌ {A = Option A} (some a) (some b) → a ≡ b
some_injective a b e = ground (arith, e)

-- The text under a key is the only value of JSON that is written so.
text_determined :
    (o : Option Value) (s : Str)
    → ((v : Value) → o ≡ some v → IsJson v)
    → All IsScalar s
    → some (quote s) ≡ Option.map dumps o
    → o ≡ some (text s)
text_determined none s h hs e = absurd (ground (arith, e))
text_determined (some v) s h hs e =
    ap some (dumps-text v s (h v refl) hs (sym (some_injective (quote s) (dumps v) e)))

canonical-SameRequest :
    (tool tool' : Str) (a b : Dict Value)
    → IsRequest tool a
    → IsRequest tool' b
    → canonical tool a ≡ canonical tool' b
    → SameRequest tool a tool' b
unfolding dumps
canonical-SameRequest tool tool' a b ha hb same =
    let members =
      write_sorted-injective (parts tool a) (parts tool' b) (parts-IsMember tool a ha)
        (parts-IsMember tool' b hb)
        (sym (canonical-parts tool a) ∙ same ∙ canonical-parts tool' b) in
    let values =
      dumps_dict-injective (without_confirmation a) (without_confirmation b) ha.1 hb.1
        (ap first_written members) in
    record {
      same_tool = quote-injective tool tool' ha.0 hb.0 (ap second_written members);
      same_values = values;
      same_texts = λ k s e.
          text_determined (Dict.get (without_confirmation b) k) s
            (λ v found. get-IsJson (without_confirmation b) k v hb.1.1 found)
            (get-IsJson (without_confirmation a) k (text s) ha.1.1 e)
            (ap (Option.map dumps) (sym e) ∙ values k);
    }
  where
    first_written : Dict Str → Str
    first_written [] = []
    first_written (m ∷ d) = m.1

    second_written : Dict Str → Str
    second_written (m ∷ n ∷ d) = n.1
    second_written _ = []

module _ (sha256 : Str → Str) where
  -- A confirmation that is issued for one call and accepted for another, where sha256 does not
  -- collide on the two texts, was accepted for the same tool and, under every key, an argument of the same text; where that
  -- is a text, the same one. So a confirmed call does what was shown.
  pub redeem-SameRequest :
      (s : ConfirmationStore) (issued_at redeemed_at : ℕ) (random tool tool' : Str)
      (a b : Dict Value) (caller caller' : Str)
      → IsStore s
      → IsRequest tool a
      → IsRequest tool' b
      → (sha256 (canonical tool a) ≡ sha256 (canonical tool' b)
          → canonical tool a ≡ canonical tool' b)
      → (redeem sha256
          (issue sha256 s issued_at random tool a caller).0
          redeemed_at
          (str "confirm-" ++ random)
          tool'
          b
          caller').1
        ≡ none
      → (caller ≡ caller') × SameRequest tool a tool' b
  unfolding arguments_digest
  redeem-SameRequest s issued_at redeemed_at random tool tool' a b caller caller' h ha hb
        no_collision accepted =
      let s' = (issue sha256 s issued_at random tool a caller).0 in
      let id = str "confirm-" ++ random in
      let c =
        (redeem-Confirms sha256 s' redeemed_at id tool' b caller'
            (issue-IsStore sha256 s issued_at random tool a caller h)).0
          accepted in
      let entry : Pending = record {
        digest = arguments_digest sha256 tool a;
        caller = caller;
        expires_at = issued_at + s.ttl;
      } in
      let own : Dict.get s'.pending id ≡ some entry =
        get-issue sha256 s issued_at random tool a caller id h ∙ (rw (str_beq_self id) refl) in
      let issued = some_injective entry c.entry (sym own ∙ c.held) in
      (
        ap (λ (p : Pending). p.caller) issued ∙ c.same_caller,
        canonical-SameRequest tool tool' a b ha hb
            (no_collision (ap (λ (p : Pending). p.digest) issued ∙ c.same_digest)),
      )
