-- ===== src/Errors.antt =====
-- What a call that may raise returns: the program's exceptions, and results. An ArgusError is its
-- class and its message.
pub mod Classes
pub use Classes.{ErrorClass, Family, Role}
unfoldable pub use Classes.{code, family, role}
use argus_mcp_server.Prelude.{Str, ◌≡◌, refl}

pub data Exception : Type 0 where
  argus : (class : ErrorClass) (message : Str) → Exception
  not_implemented : (message : Str) → Exception
  builtin_timeout : Exception
  unexpected : (message : Str) → Exception

pub data Result {ℓ} (A : Type ℓ) : Type ℓ where
  ok : A → Result A
  raise : Exception → Result A

module _ {ℓ κ} {A : Type ℓ} {B : Type κ} where
  infixl 5 ◌>>=◌
  abbrev pub ◌>>=◌ : Result A → (A → Result B) → Result B
  raise error >>= next = raise error
  ok value >>= next = next value

infixl 5 ◌>>◌
abbrev pub ◌>>◌ {ℓ} : {B : Type ℓ} → Result (Unit {0}) → Result B → Result B
m >> k = m >>= λ _. k
