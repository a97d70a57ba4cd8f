-- ===== src/Correlation/Caller.antt =====
-- Which texts count as a caller's token.
use argus_mcp_server.Dict
use argus_mcp_server.Dict.{Dict}
use argus_mcp_server.Prelude.{
  Str, str, true, false, [], ◌∷◌, some, contains, nonempty, strip, ◌≡◌, refl, sym, ap, ◌∙◌, arith,
  Bool-cases, inl, inr, ◌⊎◌, ◌≢◌, ◌++◌, lower_char, take, drop, length, or_else, starts_with, lower,
  Option-cases,
}
use mathlib.Core.List.{map-append}
use mathlib.Core.Path.{subst}
use argus_mcp_server.Correlation.{extract_caller_token, usable, drop_bearer, caller_token_header}

abbrev pub IsToken : Str → Type 0
IsToken token = (nonempty token ≡ true) × (contains token (str "{{") ≡ false)

usable-IsToken : (value token : Str) → usable value ≡ some token → (token ≡ value) × IsToken token
usable-IsToken [] token e = absurd (ground arith)
usable-IsToken (c ∷ value) token e = elim (Bool-cases (contains (c ∷ value) (str "{{"))) [
  | inl placeholder ↦ absurd (ground (arith, placeholder))
  | inr plain ↦
      let same : c ∷ value ≡ token = ground (arith, plain) in
      (sym same, subst IsToken same (refl, plain))
]

or_else-nil : (s : Str) → or_else (some s) [] ≡ s
or_else-nil [] = refl
or_else-nil (c ∷ s) = refl

no_header : drop_bearer (strip []) ≡ []
unfolding strip lower starts_with
no_header = refl

-- The text without a scheme "bearer " in any case, and as it is where no such scheme is in front.
abbrev pub IsCut : (value token : Str) → Type 0
IsCut value token =
    ((scheme : Str) × (rest : Str) × (value ≡ scheme ++ rest)
      × (lower scheme ≡ str "bearer ")
      × (token ≡ strip rest))
    ⊎ ((token ≡ value)
        × ((scheme rest : Str) → value ≡ scheme ++ rest → lower scheme ≢ str "bearer "))

lower-take :
    (p value : Str)
    → starts_with (lower value) p ≡ true
    → (lower (take (length p) value) ≡ p) × (value ≡ take (length p) value ++ drop (length p) value)
unfolding lower starts_with
lower-take [] value h = (refl, refl)
lower-take (c ∷ p) [] h = absurd (ground arith)
lower-take (c ∷ p) (d ∷ value) h =
    let (front, whole) = lower-take p value (ground (arith, h)) in
    (ground (arith, h, front), ap (λ s. d ∷ s) whole)

starts_with-append : (p s : Str) → starts_with (p ++ s) p ≡ true
unfolding starts_with
starts_with-append [] s = refl
starts_with-append (c ∷ p) s = ground (arith, starts_with-append p s)

starts_with-scheme :
    (p scheme rest value : Str)
    → value ≡ scheme ++ rest
    → lower scheme ≡ p
    → starts_with (lower value) p ≡ true
unfolding lower
starts_with-scheme p scheme rest value e h =
    rw (e, map-append lower_char scheme rest, h) (starts_with-append p (lower rest))

drop_bearer-IsCut : (value : Str) → IsCut value (drop_bearer value)
drop_bearer-IsCut value = elim (Bool-cases (starts_with (lower value) (str "bearer "))) [
  | inl bearer ↦
      let (front, whole) = lower-take (str "bearer ") value bearer in
      inl (take 7 value, drop 7 value, whole, front, rw bearer refl)
  | inr other ↦ inr (
    rw other refl,
    λ scheme rest e h.
        let bearer = starts_with-scheme (str "bearer ") scheme rest value e h in
        ground (arith, bearer, other),
  )
]

-- A caller's token is the header's text without the spaces around it and, where that begins with
-- "Bearer " in any case, without this and the spaces behind it; it is never empty and never an
-- unresolved template, which has "{{" in it.
pub extract_caller_token-IsToken :
    (headers : Dict Str) (token : Str)
    → extract_caller_token (some headers) ≡ some token
    → (value : Str) × (Dict.get headers caller_token_header ≡ some value)
      × IsCut (strip value) token
      × IsToken token
unfolding extract_caller_token
extract_caller_token-IsToken headers token e =
    let (same, is_token) =
      usable-IsToken (drop_bearer (strip (or_else (Dict.get headers caller_token_header) []))) token
        e in
    elim (Option-cases (Dict.get headers caller_token_header)) [
      | inl missing ↦
          let blank : token ≡ [] =
            same ∙ ap (λ h. drop_bearer (strip (or_else h []))) missing ∙ no_header in
          absurd (ground (arith, blank, is_token.0))
      | inr (value, given) ↦ (
        value,
        given,
        subst (IsCut (strip value))
            (sym (
              same
              ∙ ap (λ h. drop_bearer (strip (or_else h []))) given
              ∙ ap (λ s. drop_bearer (strip s)) (or_else-nil value)))
            (drop_bearer-IsCut (strip value)),
        is_token,
      )
    ]
