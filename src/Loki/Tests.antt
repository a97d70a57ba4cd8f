-- ===== src/Loki/Tests.antt =====
-- Queries with texts that try to leave their literals, and an answer of Loki.
use argus_mcp_server.Errors.{Result, ok}
use argus_mcp_server.Loki.{build_query, newest_entries}
use argus_mcp_server.Loki.Reader.{read_query}
use argus_mcp_server.Loki.Query.{asked, read_query-build_query}
use argus_mcp_server.Prelude.{
  ℕ, Str, str, [], ◌∷◌, Option, none, some, join, length, str_beq, ◌≡◌, refl, arith,
}
use argus_mcp_server.Tools.Arguments.{listed}
use argus_mcp_server.Values.{Value, Items, text, list, dict, nil, cons, end, field}
use argus_mcp_server.Values.Canonical.{quote, escape, escape_char}

abbrev crafted : Option Str
crafted = some (str "x\", pod=~\".*\"} |= \"secret")

all_namespaces : build_query none (some []) none none ≡ str "{namespace=~\".+\"}"
unfolding build_query
all_namespaces = refl

one_pod :
    build_query (some (str "btf")) (some (str "ioc-1")) none (some (str "a\"b"))
    ≡ str "{namespace=\"btf\", pod=\"ioc-1\"} |= \"a\\\"b\""
unfolding build_query quote escape escape_char join
one_pod = refl

read_query-build_query_example :
    read_query (build_query (some (str "btf")) crafted none (some (str "it's \"down\"")))
    ≡ some (asked (some (str "btf")) crafted none (some (str "it's \"down\"")))
read_query-build_query_example =
    read_query-build_query (some (str "btf")) crafted none (some (str "it's \"down\""))
      (omega arith) (omega arith) tt (omega arith)

abbrev entry : (ts line : Str) → Items
entry ts line = cons (list (cons (text ts) (cons (text line) nil))) nil

abbrev answer : Value
answer = dict (
    field (str "data")
      (dict (
        field (str "result")
          (list (
            cons
              (dict (
                field (str "stream") (dict (field (str "pod") (text (str "ioc-1")) end))
                  (field (str "values") (list (entry (str "1") (str "old"))) end)))
              (cons (dict (field (str "values") (list (entry (str "22") (str "new"))) end)) nil)))
          end))
      end)

abbrev time_of : Value → Result ℕ
time_of (text s) = ok (length s)
time_of _ = ok 0

newest_first :
    newest_entries time_of 1 answer
    ≡ ok (
        record {
          timestamp = 2;
          namespace = text [];
          pod = text [];
          container = text [];
          line = text (str "new");
        }
        ∷ [])
unfolding newest_entries str_beq listed
newest_first = refl
