-- ===== src/SaveRestore/Restores.antt =====
-- Which snapshot is found, and what a restore has done when it answers.
use mathlib.Core.Path.{subst}
use argus_mcp_server.Effects.{pure, ◌>>=◌, after_ok, pure_ok}
use argus_mcp_server.Errors.{ok}
use argus_mcp_server.Prelude.{
  ◌-◌, Str, not, List, ◌≡◌, refl, sym, ap, ◌∙◌, arith, keep, length, length-keep-le,
}
use argus_mcp_server.SaveRestore.Nodes.{SaveRestoreProvider, Comparison, resolve_snapshot}
use argus_mcp_server.SaveRestore.{Restored, restore, restore_preview, restored, previewed}
use argus_mcp_server.Values.{Value}

module _ {W : Type 0} (provider : SaveRestoreProvider W) (repr : Str → Str) where
  -- The calls of a restore that began in `w` and ended in `w'`, and the answer that they give.
  abbrev pub Restores : (snapshot configuration : Str) (r : Restored) (w w' : W) → Type 0
  Restores snapshot configuration r w w' =
      (compared : List Comparison) × (w₁ w₂ : W) × (resolve_snapshot provider repr snapshot
          configuration w
        ≡ (ok (r.snapshot, r.label), w₁))
      × (provider.compare r.snapshot.unique_id w₁ ≡ (ok compared, w₂))
      × (provider.restore r.snapshot.unique_id w₂ ≡ (ok r.failed, w'))
      × (r.changed_before_restore ≡ keep (λ (c : Comparison). not c.equal) compared)
      × (r.pvs_written ≡ length compared - length r.failed)

  -- When restore answers, the snapshot was found, then compared, and then the restore of that same
  -- snapshot was asked for, in this order; the PVs it says were written are those compared less those
  -- that failed, and the changes it reports are those that the comparison found before it wrote.
  pub restore_steps :
      (shown : Value → Str) (snapshot configuration : Str) (r : Restored) (w w' : W)
      → restore provider repr shown snapshot configuration w ≡ (ok r, w')
      → Restores snapshot configuration r w w'
  unfolding restore restore_preview
  restore_steps shown snapshot configuration r w w' e =
      let (preview, w₂, shown_first, e₁) =
        after_ok
          (λ p. provider.restore p.snapshot.unique_id >>= λ fs.
            pure (restored provider repr shown p fs))
          (restore_preview provider repr snapshot configuration w) r w' e in
      let (found, w₁, resolved, e₂) =
        after_ok
          (λ f. provider.compare f.0.unique_id >>= λ cs. pure (previewed provider repr f.0 f.1 cs))
          (resolve_snapshot provider repr snapshot configuration w) preview w₂ shown_first in
      let (compared, w₃, got, e₃) =
        after_ok (λ cs. pure (previewed provider repr found.0 found.1 cs))
          (provider.compare found.0.unique_id w₁) preview w₂ e₂ in
      let (failures, w₄, written, e₄) =
        after_ok (λ fs. pure (restored provider repr shown preview fs))
          (provider.restore preview.snapshot.unique_id w₂) r w' e₁ in
      let (preview_is, same₂) =
        pure_ok (previewed provider repr found.0 found.1 compared) preview w₃ w₂ e₃ in
      let (r_is, same') = pure_ok (restored provider repr shown preview failures) r w₄ w' e₄ in
      let write_of : provider.restore found.0.unique_id w₂ ≡ (ok failures, w') =
        subst (λ p. provider.restore p.snapshot.unique_id w₂ ≡ (ok failures, w')) (sym preview_is)
          (written ∙ ap (λ v. (ok failures, v)) same') in
      subst (λ q. Restores snapshot configuration q w w')
        (ap (λ p. restored provider repr shown p failures) preview_is ∙ r_is)
        (
          compared,
          w₁,
          w₂,
          resolved,
          got ∙ ap (λ v. (ok compared, v)) same₂,
          write_of,
          refl,
          omega (arith, length-keep-le (λ (c : Comparison). not c.equal) compared),
        )
