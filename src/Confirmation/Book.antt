-- ===== src/Confirmation/Book.antt =====
-- What the confirmation store promises, without its dictionary: a book that forgets nothing by itself,
-- in which an entry counts while it has not expired. Pruning does not show.
use argus_mcp_server.Dict
use argus_mcp_server.Dict.{Dict, passing}
use argus_mcp_server.Prelude.{
  ℕ, ◌+◌, ◌≤◌, Str, str, List, [], ◌∷◌, ◌++◌, Option, none, some, ◌≡◌, refl, ◌∙◌, ap, arith,
  if◌then◌else◌, ◌==◌, str_eq, Bool-cases, inl, inr,
}
use argus_mcp_server.Values.{Value}
use argus_mcp_server.Confirmation.{
  Pending, ConfirmationStore, Refusal, arguments_digest, issue, redeem, judge, empty_store, prune,
}
use argus_mcp_server.Confirmation.Redeem.{
  IsStore, get-issue, get-redeem, issue-IsStore, redeem-IsStore, get-prune, unexpired,
}

-- A call of the store, with the clock's reading, and its answer.
pub data Request : Type 0 where
  ask : (now : ℕ) (random tool : Str) (arguments : Dict Value) (caller : Str) → Request
  confirm : (now : ℕ) (id tool : Str) (arguments : Dict Value) (caller : Str) → Request

pub data Answer : Type 0 where
  handed : (id : Str) → Answer
  judged : Option Refusal → Answer

abbrev pub at : Request → ℕ
at (ask now _ _ _ _) = now
at (confirm now _ _ _ _) = now

-- The clock does not run backwards.
abbrev pub IsOrdered : ℕ → List Request → Type 0
IsOrdered t [] = Unit
IsOrdered t (r ∷ rs) = (t ≤ at r) × IsOrdered (at r) rs

abbrev pub Book : Type 0
Book = Str → Option Pending

abbrev write : Book → Str → Option Pending → Book
write book id entry j = if id == j then entry else book j

module _ (sha256 : Str → Str) where
  abbrev step : ConfirmationStore → Request → ConfirmationStore × Answer
  step s (ask now random tool arguments caller) =
      let (s', id) = issue sha256 s now random tool arguments caller in (s', handed id)
  step s (confirm now id tool arguments caller) =
      let (s', refusal) = redeem sha256 s now id tool arguments caller in (s', judged refusal)

  unfoldable pub answers : ConfirmationStore → List Request → List Answer
  answers s [] = []
  answers s (r ∷ rs) = let (s', a) = step s r in a ∷ answers s' rs

  abbrev new_entry : (ttl now : ℕ) (tool : Str) (arguments : Dict Value) (caller : Str) → Pending
  new_entry ttl now tool arguments caller = record {
    digest = arguments_digest sha256 tool arguments;
    caller = caller;
    expires_at = now + ttl;
  }

  abbrev book_step : (ttl : ℕ) → Book → Request → Book × Answer
  book_step ttl book (ask now random tool arguments caller) =
      let id = str "confirm-" ++ random in
      (write book id (some (new_entry ttl now tool arguments caller)), handed id)
  book_step ttl book (confirm now id tool arguments caller) = (
    write book id none,
    judged (judge sha256 (passing (unexpired now) (book id)) tool arguments caller),
  )

  unfoldable pub book_answers : (ttl : ℕ) → Book → List Request → List Answer
  book_answers ttl book [] = []
  book_answers ttl book (r ∷ rs) =
      let (book', a) = book_step ttl book r in a ∷ book_answers ttl book' rs

-- From the time `t` on the store and the book show the same entries.
pub record Agree (t : ℕ) (s : ConfirmationStore) (book : Book) : Type 0 where
  pub store : IsStore s
  pub entries :
      (now : ℕ) (id : Str)
      → t ≤ now
      → passing (unexpired now) (Dict.get s.pending id) ≡ passing (unexpired now) (book id)

passing_later :
    (t now : ℕ) (o : Option Pending)
    → t ≤ now
    → passing (unexpired now) (passing (unexpired t) o) ≡ passing (unexpired now) o
passing_later t now none h = refl
passing_later t now (some p) h = ground (arith, h)

issue_ttl :
    (sha256 : Str → Str) (s : ConfirmationStore) (now : ℕ) (random tool : Str)
    (arguments : Dict Value) (caller : Str)
    → (issue sha256 s now random tool arguments caller).0.ttl ≡ s.ttl
unfolding issue prune
issue_ttl sha256 s now random tool arguments caller = refl

redeem_ttl :
    (sha256 : Str → Str) (s : ConfirmationStore) (now : ℕ) (id tool : Str) (arguments : Dict Value)
    (caller : Str)
    → (redeem sha256 s now id tool arguments caller).0.ttl ≡ s.ttl
unfolding redeem prune
redeem_ttl sha256 s now id tool arguments caller = refl

module _ (sha256 : Str → Str) where
  ask-Agree :
      (t now : ℕ) (random tool : Str) (arguments : Dict Value) (caller : Str)
      (s : ConfirmationStore) (book : Book)
      → t ≤ now
      → Agree t s book
      → Agree now (issue sha256 s now random tool arguments caller).0 (
          write book
            (str "confirm-" ++ random)
            (some (new_entry sha256 s.ttl now tool arguments caller)))
  ask-Agree t now random tool arguments caller s book h agree = record {
    store = issue-IsStore sha256 s now random tool arguments caller agree.store;
    entries = λ later id le. elim (Bool-cases ((str "confirm-" ++ random) == id)) [
      | inl same ↦
          rw (get-issue sha256 s now random tool arguments caller id agree.store, same) refl
      | inr other ↦
          rw (get-issue sha256 s now random tool arguments caller id agree.store, other)
            (passing_later now later (Dict.get s.pending id) le
              ∙ agree.entries later id (omega arith))
    ];
  }

  confirm-Agree :
      (t now : ℕ) (id tool : Str) (arguments : Dict Value) (caller : Str) (s : ConfirmationStore)
      (book : Book)
      → t ≤ now
      → Agree t s book
      → Agree now (redeem sha256 s now id tool arguments caller).0 (write book id none)
  confirm-Agree t now id tool arguments caller s book h agree = record {
    store = redeem-IsStore sha256 s now id tool arguments caller agree.store;
    entries = λ later j le. elim (Bool-cases (id == j)) [
      | inl same ↦ rw (get-redeem sha256 s now id tool arguments caller j agree.store, same) refl
      | inr other ↦
          rw (get-redeem sha256 s now id tool arguments caller j agree.store, other)
            (passing_later now later (Dict.get s.pending j) le
              ∙ agree.entries later j (omega arith))
    ];
  }

  redeem-judge :
      (t now : ℕ) (id tool : Str) (arguments : Dict Value) (caller : Str) (s : ConfirmationStore)
      (book : Book)
      → t ≤ now
      → Agree t s book
      → (redeem sha256 s now id tool arguments caller).1
        ≡ judge sha256 (passing (unexpired now) (book id)) tool arguments caller
  unfolding redeem
  redeem-judge t now id tool arguments caller s book h agree =
      ap (λ o. judge sha256 o tool arguments caller)
        (get-prune s now id agree.store ∙ agree.entries now id h)

  answers-Agree :
      (rs : List Request) (t : ℕ) (s : ConfirmationStore) (book : Book)
      → IsOrdered t rs
      → Agree t s book
      → answers sha256 s rs ≡ book_answers sha256 s.ttl book rs
  unfolding answers book_answers issue redeem prune
  answers-Agree [] t s book h agree = refl
  answers-Agree (ask now random tool arguments caller ∷ rs) t s book h agree =
      let s' = (issue sha256 s now random tool arguments caller).0 in
      let book' = (book_step sha256 s.ttl book (ask now random tool arguments caller)).0 in
      ap (λ given. handed (str "confirm-" ++ random) ∷ given)
        (answers-Agree rs now s' book' h.1
          (ask-Agree t now random tool arguments caller s book h.0 agree))
  answers-Agree (confirm now id tool arguments caller ∷ rs) t s book h agree =
      let (s', refusal) = redeem sha256 s now id tool arguments caller in
      ap (λ r. judged r ∷ answers sha256 s' rs)
        (redeem-judge t now id tool arguments caller s book h.0 agree)
      ∙ ap (λ given. (book_step sha256 s.ttl book (confirm now id tool arguments caller)).1 ∷ given)
          (answers-Agree rs now s' (write book id none) h.1
            (confirm-Agree t now id tool arguments caller s book h.0 agree))

-- On any sequence of calls whose clock does not run backwards, the store answers as the book does: no
-- entry that still counts is ever lost by pruning, and none that has expired ever counts.
pub answers-book :
    (sha256 : Str → Str) (rs : List Request) (t : ℕ)
    → IsOrdered t rs
    → answers sha256 empty_store rs ≡ book_answers sha256 empty_store.ttl (λ id. none) rs
unfolding Dict.get
answers-book sha256 rs t h =
    answers-Agree sha256 rs t empty_store (λ id. none) h
      (record { store = tt; entries = λ now id le. refl })
