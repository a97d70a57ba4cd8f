-- ===== src/Effects.antt =====
-- Awaited calls that may raise, in sequence: each takes the world and gives a result and the next
-- world. A call after one that raised is not made.
use argus_mcp_server.Errors.{Exception, Result, ok, raise}
use argus_mcp_server.Prelude.{◌≡◌, refl, arith}

abbrev pub Effect : Type 0 → Type 0 → Type 0
Effect W A = W → Result A × W

module _ {W A : Type 0} where
  abbrev pub pure : A → Effect W A
  pure a w = (ok a, w)

  abbrev pub fail : Exception → Effect W A
  fail e w = (raise e, w)

module _ {W A B : Type 0} where
  -- What follows a call, by how the call ended.
  abbrev pub after : (A → Effect W B) → Result A × W → Result B × W
  after next (ok a, w) = next a w
  after next (raise e, w) = (raise e, w)

  infixl 5 ◌>>=◌
  abbrev pub ◌>>=◌ : Effect W A → (A → Effect W B) → Effect W B
  ◌>>=◌ call next w = after next (call w)

  -- Where a sequence gives a value, its first call gave one.
  pub after_ok :
      (next : A → Effect W B) (r : Result A × W) (b : B) (w' : W)
      → after next r ≡ (ok b, w')
      → (a : A) × (w₁ : W) × (r ≡ (ok a, w₁)) × (next a w₁ ≡ (ok b, w'))
  after_ok next (ok a, w) b w' e = (a, w, refl, e)
  after_ok next (raise x, w) b w' e = absurd (ground arith)

module _ {W A : Type 0} where
  pub pure_ok : (a b : A) (w w' : W) → pure a w ≡ (ok b, w') → (a ≡ b) × (w ≡ w')
  pure_ok a b w w' e = (ground arith, ground arith)
