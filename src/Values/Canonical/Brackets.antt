-- ===== src/Values/Canonical/Brackets.antt =====
-- Texts of values in the brackets of a list or a dictionary, and where one ends among them.
use mathlib.Core.List.{append_assoc, append-nil}
use mathlib.Core.Path.{subst}
use argus_mcp_server.Prelude.{
  str, join, All, List, ℕ, zero, suc, Str, true, ◌||◌, [], ◌∷◌, ◌++◌, ◌≡◌, refl, ap, sym, ◌∙◌,
  arith,
}
use argus_mcp_server.Values.Canonical.Cut.{
  open_text, is_closing, is_separator, cut, Leads, Leads-append, Passes,
}

abbrev pub Inner : Str → Type 0
Inner s = (d : ℕ) → Leads (open_text (suc d)) s (open_text (suc d))

-- Text in square brackets, or in braces.
pub list-Passes : (s : Str) → Inner s → Passes (91 ∷ (s ++ 93 ∷ []))
unfolding cut
list-Passes s h d =
    Leads-append (open_text d) (open_text (suc d)) (open_text d) (91 ∷ []) (s ++ 93 ∷ []) (opened d)
      (Leads-append (open_text (suc d)) (open_text (suc d)) (open_text d) s (93 ∷ []) (h d)
        λ rest. refl)
  where
    opened : (d : ℕ) → Leads (open_text d) (91 ∷ []) (open_text (suc d))
    opened zero rest = refl
    opened (suc d) rest = refl

pub dict-Passes : (s : Str) → Inner s → Passes (123 ∷ (s ++ 125 ∷ []))
unfolding cut
dict-Passes s h d =
    Leads-append (open_text d) (open_text (suc d)) (open_text d) (123 ∷ []) (s ++ 125 ∷ [])
      (opened d)
      (Leads-append (open_text (suc d)) (open_text (suc d)) (open_text d) s (125 ∷ []) (h d)
        λ rest. refl)
  where
    opened : (d : ℕ) → Leads (open_text d) (123 ∷ []) (open_text (suc d))
    opened zero rest = refl
    opened (suc d) rest = refl

-- In brackets a value may be followed by a comma or a colon.
pub Inner-then :
    (s t : Str) (c : ℕ) → is_separator c ≡ true → Inner s → Inner t → Inner (s ++ c ∷ t)
unfolding cut
Inner-then s t c h first more d =
    let in_brackets = open_text (suc d) in
    Leads-append in_brackets in_brackets in_brackets s (c ∷ t) (first d)
      (Leads-append in_brackets in_brackets in_brackets (c ∷ []) t (separated c h) (more d))
  where
    separated :
        (c : ℕ) → is_separator c ≡ true → Leads (open_text (suc d)) (c ∷ []) (open_text (suc d))
    separated c h rest = ground (arith, h)

pub Passes-Inner : (s : Str) → Passes s → Inner s
Passes-Inner s h d = h (suc d)

pub join-Inner : (parts : List Str) → All Inner parts → Inner (join (str ",") parts)
unfolding join
join-Inner [] h = λ d rest. refl
join-Inner (s ∷ []) h = h.0
join-Inner (s ∷ t ∷ parts) h =
    let more = join (str ",") (t ∷ parts) in
    subst Inner (sym (append_assoc s (str ",") more))
      (Inner-then s more 44 refl h.0 (join-Inner (t ∷ parts) h.1))

-- Where a text passes and one that cannot go on follows, the two are determined by the whole.
pub cut_unique :
    (s t : Str) (c d : ℕ) (more rest : Str)
    → Passes s
    → Passes t
    → is_closing c || is_separator c ≡ true
    → is_closing d || is_separator d ≡ true
    → s ++ c ∷ more ≡ t ++ d ∷ rest
    → (s ≡ t) × (c ∷ more ≡ d ∷ rest)
unfolding cut
cut_unique s t c d more rest first second stop end_ same =
    let left : cut (open_text zero) (s ++ c ∷ more) ≡ (s ++ [], c ∷ more) =
      first zero (c ∷ more) ∙ (rw stop refl) in
    let right : cut (open_text zero) (t ++ d ∷ rest) ≡ (t ++ [], d ∷ rest) =
      second zero (d ∷ rest) ∙ (rw end_ refl) in
    let both : ◌≡◌ {A = Str × Str} (s ++ [], c ∷ more) (t ++ [], d ∷ rest) =
      sym left ∙ ap (cut (open_text zero)) same ∙ right in
    (
      sym (append-nil s) ∙ ap (λ (r : Str × Str). r.0) both ∙ append-nil t,
      ap (λ (r : Str × Str). r.1) both,
    )
