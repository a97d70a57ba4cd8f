-- ===== src/Values.antt =====
-- Python values as the tools receive and return them, and `json.dumps` of such values.
pub mod Canonical
use argus_mcp_server.Prelude.{
  ℕ, zero, suc, Str, str, Bool, true, false, not, ◌||◌, [], ◌++◌, show, ◌==◌, str_eq,
}

pub data ℤ : Type 0 where
  pos : ℕ → ℤ
  negsuc : ℕ → ℤ

-- A finite float is the text that `repr` gives it, which determines it.
pub data Float : Type 0 where
  finite : (repr : Str) → Float
  nan inf neg_inf : Float

-- `object` is an instance with a `__dict__` and the text that `str` gives; `other` is a value that
-- JSON can only show as its `str` (or as its `isoformat`).
mutual
  pub data Value : Type 0 where
    null : Value
    bool : Bool → Value
    int : ℤ → Value
    float : Float → Value
    text : Str → Value
    list : Items → Value
    dict : Fields → Value
    object : (shown : Str) → Fields → Value
    other : (shown : Str) → Value

  pub data Items : Type 0 where
    nil : Items
    cons : Value → Items → Items

  pub data Fields : Type 0 where
    end : Fields
    field : Str → Value → Fields → Fields

abbrev pub show_int : ℤ → Str
show_int (pos n) = show n
show_int (negsuc n) = str "-" ++ show (suc n)

-- `bool(v)`: empty texts and containers, zero and None are false.
unfoldable pub truth : Value → Bool
truth null = false
truth (bool b) = b
truth (int (pos zero)) = false
truth (float (finite r)) = not (r == str "0.0" || r == str "-0.0")
truth (text []) = false
truth (list nil) = false
truth (dict end) = false
truth _ = true
