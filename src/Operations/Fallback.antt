-- ===== src/Operations/Fallback.antt =====
-- Which provider a read or a write reaches.
use argus_mcp_server.Dict
use argus_mcp_server.Dict.{Dict}
use argus_mcp_server.Effects.{Effect}
use argus_mcp_server.Errors.{Result, ok, raise, Exception}
use argus_mcp_server.Prelude.{
  Str, str, true, Option, none, some, ◌≡◌, ◌⊎◌, inl, inr, refl, arith, ap, ◌∙◌, str_beq_iff, str_eq,
  ◌==◌, Bool-cases, true,
}
use argus_mcp_server.Values.{Value}
use argus_mcp_server.Operations.{
  EpicsProvider, Transports, Transport, ca, pva, is_epics_error, epics_for, with_fallback, set_pv,
  retry, provider, chosen,
}

module _ {W : Type 0} where
  abbrev pub IsPinned : Transports W → Str → Type 0
  IsPinned t pv_name = Dict.get t.protocol_overrides pv_name ≡ some (str "pva")

  chosen_pva :
      (o : Option Str) (pva? : Option (EpicsProvider W))
      → o ≡ some (str "pva")
      → (p : EpicsProvider W) → pva? ≡ some p
      → chosen o pva? ≡ pva
  chosen_pva none pva? e p f = cc
  chosen_pva (some o) none e p f = cc
  chosen_pva (some o) (some q) e p f = ground (arith, str_beq_iff o (str "pva"))

  -- The PV is not pinned to pvAccess, Channel Access raised an EpicsError, and the call was made by
  -- pvAccess after it.
  pub record FellBack {A : Type 0} (t : Transports W) (pv_name : Str)
      (op : EpicsProvider W → Effect W A) (w : W) (a : A) (w' : W) : Type 0 where
    pub fallback : EpicsProvider W
    pub error : Exception
    pub between : W
    pub unpinned : ¬ IsPinned t pv_name
    pub available : t.epics_pva ≡ some fallback
    pub configured : fallback.is_configured ≡ true
    pub is_epics : is_epics_error error ≡ true
    pub failed : op t.epics_ca w ≡ (raise error, between)
    pub succeeded : op fallback between ≡ (ok a, w')

  -- The provider that is asked first: pvAccess for a PV that is pinned to it, where there is such a
  -- provider, and Channel Access otherwise.
  abbrev pub IsFirst : Transports W → Str → EpicsProvider W → Type 0
  IsFirst t pv_name p =
      (IsPinned t pv_name × (t.epics_pva ≡ some p))
      ⊎ ((p ≡ t.epics_ca) × (¬ IsPinned t pv_name ⊎ (t.epics_pva ≡ none)))

  chosen-IsFirst :
      (t : Transports W) (pv_name : Str) (o : Option Str) (pva? : Option (EpicsProvider W))
      → Dict.get t.protocol_overrides pv_name ≡ o
      → t.epics_pva ≡ pva?
      → IsFirst t pv_name (provider t (chosen o pva?))
  chosen-IsFirst t pv_name none pva? e f = inr (refl, inl (λ pinned. ground (arith, e, pinned)))
  chosen-IsFirst t pv_name (some o) none e f = inr (refl, inr f)
  chosen-IsFirst t pv_name (some o) (some p) e f = elim (Bool-cases (o == str "pva")) [
    | inl same ↦ inl (ground (arith, e, same, str_beq_iff o (str "pva")), ground (arith, f, same))
    | inr other ↦ inr (
      ground (arith, other),
      inl (λ pinned. ground (arith, e, pinned, other, str_beq_iff o (str "pva"))),
    )
  ]

  retry_ok :
      {A : Type 0} (t : Transports W) (pv_name : Str) (op : EpicsProvider W → Effect W A) (w : W)
      (a : A) (w' : W) (primary : Transport) (pva? : Option (EpicsProvider W))
      (first : Result A × W)
      → epics_for t pv_name ≡ primary
      → t.epics_pva ≡ pva?
      → op (provider t primary) w ≡ first
      → retry primary pva? op first ≡ (ok a, w')
      → (op (provider t primary) w ≡ (ok a, w')) ⊎ FellBack t pv_name op w a w'
  unfolding epics_for
  retry_ok t pv_name op w a w' primary pva? (ok b, w₁) g e f h = inl (f ∙ h)
  retry_ok t pv_name op w a w' ca (some p) (raise x, w₁) g e f h = inr (record {
    fallback = p;
    error = x;
    between = w₁;
    unpinned = λ pinned. ground (arith, g, chosen_pva _ t.epics_pva pinned p e);
    available = e;
    configured = ground arith;
    is_epics = ground arith;
    failed = f;
    succeeded = ground arith;
  })
  retry_ok t pv_name op w a w' ca none (raise x, w₁) g e f h = absurd (ground arith)
  retry_ok t pv_name op w a w' pva pva? (raise x, w₁) g e f h = absurd (ground arith)

  retry_pva :
      {A : Type 0} (pva? : Option (EpicsProvider W)) (op : EpicsProvider W → Effect W A)
      (first : Result A × W)
      → retry pva pva? op first ≡ first
  retry_pva pva? op (ok a, w) = refl
  retry_pva pva? op (raise e, w) = refl

  -- A write that succeeds succeeded in the provider that is asked first: pvAccess for a PV that is
  -- pinned to it, where there is a pvAccess provider, and Channel Access otherwise; or the PV is not
  -- pinned, Channel Access raised an EpicsError, and it succeeded in a configured pvAccess provider
  -- after that.
  pub set_pv-FellBack :
      (t : Transports W) (pv_name : Str) (value a : Value) (w w' : W)
      → set_pv t pv_name value w ≡ (ok a, w')
      → ((p : EpicsProvider W) × IsFirst t pv_name p × (p.put pv_name value w ≡ (ok a, w')))
        ⊎ FellBack t pv_name (λ p. p.put pv_name value) w a w'
  unfolding set_pv epics_for
  set_pv-FellBack t pv_name value a w w' h =
      let first =
        chosen-IsFirst t pv_name (Dict.get t.protocol_overrides pv_name) t.epics_pva refl refl in
      elim (retry_ok t pv_name (λ p. p.put pv_name value) w a w' (epics_for t pv_name) t.epics_pva _
        refl refl refl h) [
          | inl done ↦ inl (provider t (epics_for t pv_name), first, done)
          | inr fell ↦ inr fell
        ]

  -- A PV that is pinned to pvAccess is never asked for over Channel Access: with a pvAccess provider,
  -- every operation is that provider's alone, whatever it answers.
  with_fallback_pinned :
      {A : Type 0} (t : Transports W) (pv_name : Str) (op : EpicsProvider W → Effect W A) (w : W)
      (p : EpicsProvider W)
      → Dict.get t.protocol_overrides pv_name ≡ some (str "pva")
      → t.epics_pva ≡ some p
      → with_fallback t pv_name op w ≡ op p w
  unfolding with_fallback
  with_fallback_pinned t pv_name op w p pinned present =
      rw (chosen_pva _ t.epics_pva pinned p present) (
        retry_pva t.epics_pva op (op (provider t pva) w)
        ∙ ap (λ q. op q w) (ground (arith, present)))
