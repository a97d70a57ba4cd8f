-- ===== src/KnowledgeHub/Streams.antt =====
-- An event stream is read as the messages that its events carry.
use mathlib.Core.List.{append_assoc, append-nil}
use argus_mcp_server.KnowledgeHub.Wire.{
  is_break, splitlines, message_of_data, cons_message, read_lines, sse_messages, answers_to,
  parse_message,
}
use argus_mcp_server.Prelude.{
  ℕ, Str, str, ◌++◌, true, false, List, [], ◌∷◌, Option, none, some, All, find, lstrip, starts_with,
  nat_beq, ◌≡◌, refl, arith,
}
use argus_mcp_server.Errors.{ok}
use argus_mcp_server.Values.{Value}

-- An event's data, line by line: at least one.
abbrev pub Event : Type 0
Event = Str × List Str

abbrev pub lines_of : Event → List Str
lines_of (p, parts) = p ∷ parts

-- No line ends in it, and it does not begin with a space.
abbrev pub IsLine : Str → Type 0
IsLine p = All (λ c. is_break c ≡ false) p × (lstrip p ≡ p)

abbrev pub IsEvent : Event → Type 0
IsEvent e = All IsLine (lines_of e)

abbrev write_line : Str → Str
write_line p = str "data: " ++ p ++ 10 ∷ []

write_lines : List Str → Str
write_lines [] = []
write_lines (p ∷ parts) = write_line p ++ write_lines parts

-- The events as a server sends them: `data: ` before each line, and an empty line behind the last.
unfoldable pub write_events : List Event → Str
unfolding write_lines
write_events [] = []
write_events (e ∷ events) = write_lines (lines_of e) ++ 10 ∷ write_events events

splitlines-line :
    (p rest : Str)
    → All (λ c. is_break c ≡ false) p
    → splitlines (p ++ 10 ∷ rest) ≡ p ∷ splitlines rest
unfolding splitlines
splitlines-line [] rest h = refl
splitlines-line (c ∷ p) rest h =
    let no_return : nat_beq c 13 ≡ false = ground (arith, h.0) in
    rw (no_return, h.0, splitlines-line p rest h.1) refl

splitlines-data :
    (p rest : Str)
    → All (λ c. is_break c ≡ false) p
    → splitlines (write_line p ++ rest) ≡ (str "data: " ++ p) ∷ splitlines rest
splitlines-data p rest h =
    rw (append_assoc p (10 ∷ []) rest)
      (splitlines-line (str "data: " ++ p) rest (refl, (refl, (refl, (refl, (refl, (refl, h)))))))

read_lines-data :
    (loads : Str → Option Value) (parts : List Str) (p : Str) (lines : List Str)
    → (lstrip p ≡ p)
    → read_lines loads parts ((str "data: " ++ p) ∷ lines)
      ≡ read_lines loads (parts ++ p ∷ []) lines
unfolding read_lines starts_with lstrip
read_lines-data loads parts p lines h = rw h refl

read_lines-write_lines :
    (loads : Str → Option Value) (parts ps : List Str) (rest : Str)
    → All IsLine ps
    → read_lines loads parts (splitlines (write_lines ps ++ rest) ++ [] ∷ [])
      ≡ read_lines loads (parts ++ ps) (splitlines rest ++ [] ∷ [])
unfolding write_lines
read_lines-write_lines loads parts [] rest hs = rw (append-nil parts) refl
read_lines-write_lines loads parts (p ∷ ps) rest hs =
    rw
      (
        append_assoc (write_line p) (write_lines ps) rest,
        splitlines-data p (write_lines ps ++ rest) (hs.0).0,
        read_lines-data loads parts p (splitlines (write_lines ps ++ rest) ++ [] ∷ []) (hs.0).1,
        read_lines-write_lines loads (parts ++ p ∷ []) ps rest hs.1,
        append_assoc parts (p ∷ []) ps,
      )
      refl

-- What the events carry, without those whose text is no JSON.
unfoldable pub messages_of : (loads : Str → Option Value) → List Event → List Value
messages_of loads [] = []
messages_of loads (e ∷ events) =
    cons_message (message_of_data loads (lines_of e)) (messages_of loads events)

sse_messages-write_events :
    (loads : Str → Option Value) (events : List Event)
    → All IsEvent events
    → sse_messages loads (write_events events) ≡ messages_of loads events
unfolding sse_messages read_lines splitlines write_events messages_of
sse_messages-write_events loads [] h = refl
sse_messages-write_events loads ((p, ps) ∷ events) h =
    rw
      (
        read_lines-write_lines loads [] (p ∷ ps) (10 ∷ write_events events) h.0,
        sse_messages-write_events loads events h.1,
      )
      refl

-- No message of these answers the request.
abbrev pub NoneAnswers : (request_id : ℕ) → List Value → Type 0
NoneAnswers request_id messages = All (λ m. answers_to request_id m ≡ false) messages

find-messages_of :
    (loads : Str → Option Value) (request_id : ℕ) (before : List Event) (e : Event)
    (after : List Event) (message : Value)
    → NoneAnswers request_id (messages_of loads before)
    → message_of_data loads (lines_of e) ≡ some message
    → answers_to request_id message ≡ true
    → find (answers_to request_id) (messages_of loads (before ++ e ∷ after)) ≡ some message
unfolding messages_of
find-messages_of loads request_id [] e after message hb he ha = rw (he, ha) refl
find-messages_of loads request_id (b ∷ before) e after message hb he ha =
    elim (message_of_data loads (lines_of b))
        as (λ m.
          NoneAnswers request_id (cons_message m (messages_of loads before))
          → find (answers_to request_id) (cons_message m (messages_of loads (before ++ e ∷ after)))
            ≡ some message) [
              | none ↦ λ h. find-messages_of loads request_id before e after message h he ha
              | some m ↦ λ h.
                  rw (h.0, find-messages_of loads request_id before e after message h.1 he ha) refl
            ]
      hb

-- A response is an event stream of the given events, whose lines have no line end and no space in
-- front. One of the events carries JSON of a dictionary with the request's id, and none before it does:
-- whatever else the others carry, and with any number of events behind it, the response is read as that
-- dictionary.
pub parse_message-write_events :
    (loads : Str → Option Value) (content_type : Str) (request_id : ℕ) (before : List Event)
    (e : Event) (after : List Event) (message : Value)
    → starts_with content_type (str "text/event-stream") ≡ true
    → All IsEvent (before ++ e ∷ after)
    → NoneAnswers request_id (messages_of loads before)
    → message_of_data loads (lines_of e) ≡ some message
    → answers_to request_id message ≡ true
    → parse_message loads content_type (write_events (before ++ e ∷ after)) request_id ≡ ok message
unfolding parse_message
parse_message-write_events loads content_type request_id before e after message hc hw hb he ha =
    rw
      (
        hc,
        sse_messages-write_events loads (before ++ e ∷ after) hw,
        find-messages_of loads request_id before e after message hb he ha,
      )
      refl
