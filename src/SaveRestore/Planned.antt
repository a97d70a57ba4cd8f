-- ===== src/SaveRestore/Planned.antt =====
-- What a plan holds: every setpoint once, in the plan of its owner.
use mathlib.Core.Path.{subst}
use argus_mcp_server.Dict
use argus_mcp_server.Dict.{Dict, get-put}
use argus_mcp_server.Effects.{Effect, pure, after_ok, pure_ok}
use argus_mcp_server.Errors.{Result, ok, raise}
use argus_mcp_server.Inventory.{InventoryListing, BeamlineDevice}
use argus_mcp_server.Prelude.{
  ℕ, ◌+◌, Str, ◌++◌, Bool, false, ◌||◌, List, [], ◌∷◌, Option, none, some, ◌≡◌, refl, arith, length,
  any, Bool-cases, inl, inr, if◌then◌else◌, ◌==◌, str_eq, str_beq_iff, length-append, strip,
}
use argus_mcp_server.SaveRestore.Plan.{
  SnrPvEntry, PvItem, ConfigurationPlan, Planning, no_plan, append_to, add, skip, add_roles,
  add_device, add_devices, add_pvs, plan_configuration, explicit_owner, put_all, finish, add_wanted,
  setpoints_of, no_convention, strip_readback, add_found, add_setpoints, add_role,
}

-- No setpoint stands twice.
abbrev pub Distinct : List SnrPvEntry → Type 0
Distinct [] = Unit
Distinct (e ∷ es) = (any (λ (f : SnrPvEntry). f.pv_name == e.pv_name) es ≡ false) × Distinct es

-- How many setpoints the devices of a plan have.
abbrev pub total : Dict (List Str) → ℕ
total [] = 0
total ((owner, setpoints) ∷ devices) = length setpoints + total devices

total-append_to :
    (devices : Dict (List Str)) (owner setpoint : Str)
    → total (append_to devices owner setpoint) ≡ total devices + 1
unfolding Dict.put Dict.get
total-append_to [] owner setpoint = refl
total-append_to ((o, s) ∷ devices) owner setpoint =
    ground (arith, total-append_to devices owner setpoint, length-append s (setpoint ∷ []))

any-snoc :
    (p : SnrPvEntry → Bool) (es : List SnrPvEntry) (e : SnrPvEntry)
    → any p (es ++ e ∷ []) ≡ (any p es || p e)
any-snoc p [] e = ground arith
any-snoc p (f ∷ es) e = ground (arith, any-snoc p es e)

Distinct-snoc :
    (es : List SnrPvEntry) (e : SnrPvEntry)
    → any (λ (f : SnrPvEntry). f.pv_name == e.pv_name) es ≡ false
    → Distinct es
    → Distinct (es ++ e ∷ [])
Distinct-snoc [] e h d = (refl, tt)
Distinct-snoc (f ∷ es) e h d = ground (
  arith,
  any-snoc (λ (g : SnrPvEntry). g.pv_name == f.pv_name) es e,
  Distinct-snoc es e,
  str_beq_iff f.pv_name e.pv_name,
  str_beq_iff e.pv_name f.pv_name,
)

-- The set of seen setpoints is that of the list, each once, and each is counted under an owner.
abbrev pub IsPlanning : Planning → Type 0
IsPlanning p =
    ((s : Str) → any (λ t. t == s) p.seen ≡ any (λ (e : SnrPvEntry). e.pv_name == s) p.plan.pv_list)
    × Distinct p.plan.pv_list
    × (length p.plan.pv_list ≡ total p.plan.devices)

add-IsPlanning :
    (readbacks : Bool) (p : Planning) (setpoint : Str) (readback : Option Str) (owner : Str)
    → IsPlanning p
    → IsPlanning (add readbacks p setpoint readback owner)
unfolding add
add-IsPlanning readbacks p setpoint readback owner (seen_is, distinct, counted) =
    elim (Bool-cases (any (λ s. s == setpoint) p.seen)) [
      | inl known ↦ rw known (seen_is, distinct, counted)
      | inr fresh ↦ rw fresh (
        λ s. ground (
          arith,
          seen_is s,
          any-snoc (λ (e : SnrPvEntry). e.pv_name == s) p.plan.pv_list
              (record {
                pv_name = setpoint;
                readback_pv_name = if readbacks then readback else none;
                read_only = false;
              }),
        ),
        Distinct-snoc p.plan.pv_list _ (ground (arith, seen_is setpoint)) distinct,
        omega (
          arith,
          counted,
          length-append p.plan.pv_list (
              record {
                pv_name = setpoint;
                readback_pv_name = if readbacks then readback else none;
                read_only = false;
              }
              ∷ []),
          total-append_to p.plan.devices owner setpoint,
        ),
      )
    ]

add_role-IsPlanning :
    (readbacks : Bool) (device : BeamlineDevice) (p : Planning) (role : Str) (found : Option Str)
    → IsPlanning p
    → IsPlanning (add_role readbacks device p role found)
add_role-IsPlanning readbacks device p role none h = h
add_role-IsPlanning readbacks device p role (some setpoint) h =
    add-IsPlanning readbacks p setpoint _ device.name h

add_roles-IsPlanning :
    (readbacks : Bool) (device : BeamlineDevice) (roles : List Str) (p : Planning)
    → IsPlanning p
    → IsPlanning (add_roles readbacks device p roles)
unfolding add_roles
add_roles-IsPlanning readbacks device [] p h = h
add_roles-IsPlanning readbacks device (role ∷ roles) p h =
    add_roles-IsPlanning readbacks device roles _
      (add_role-IsPlanning readbacks device p role (Dict.get device.key_pvs role) h)

skip-IsPlanning :
    (p : Planning) (name reason : Str) → IsPlanning p → IsPlanning (skip p name reason)
unfolding skip
skip-IsPlanning p name reason h = h

add_setpoints-IsPlanning :
    (readbacks : Bool) (device : BeamlineDevice) (p : Planning) (roles : List Str)
    → IsPlanning p
    → IsPlanning (add_setpoints readbacks device p roles)
add_setpoints-IsPlanning readbacks device p [] h =
    skip-IsPlanning p device.name (no_convention device) h
add_setpoints-IsPlanning readbacks device p (role ∷ roles) h =
    add_roles-IsPlanning readbacks device (role ∷ roles) p h

add_found-IsPlanning :
    (readbacks : Bool) (p : Planning) (wanted : Str) (found : Option BeamlineDevice)
    → IsPlanning p
    → IsPlanning (add_found readbacks p wanted found)
add_found-IsPlanning readbacks p wanted none h = skip-IsPlanning p wanted _ h
add_found-IsPlanning readbacks p wanted (some device) h =
    add_setpoints-IsPlanning readbacks device p (setpoints_of device) h

add_devices-IsPlanning :
    (readbacks : Bool) (by_name : Dict BeamlineDevice) (devices : List Str) (p : Planning)
    → IsPlanning p
    → IsPlanning (add_devices readbacks by_name p devices)
unfolding add_devices add_device
add_devices-IsPlanning readbacks by_name [] p h = h
add_devices-IsPlanning readbacks by_name (wanted ∷ devices) p h =
    add_devices-IsPlanning readbacks by_name devices _ (add_found-IsPlanning readbacks p wanted _ h)

add_pvs-IsPlanning :
    (readbacks : Bool) (q : Planning) (items : List PvItem) (p : Planning)
    → IsPlanning p
    → add_pvs readbacks p items ≡ ok q
    → IsPlanning q
unfolding add_pvs
add_pvs-IsPlanning readbacks q [] p h e = subst IsPlanning {x = p} {y = q} (ground arith) h
add_pvs-IsPlanning readbacks q (PvItem.pv name ∷ items) p h e =
    add_pvs-IsPlanning readbacks q items _
      (add-IsPlanning readbacks p (strip name) none explicit_owner h) e
add_pvs-IsPlanning readbacks q (PvItem.mapping (some (c ∷ setpoint)) readback ∷ items) p h e =
    add_pvs-IsPlanning readbacks q items _
      (add-IsPlanning readbacks p (strip (c ∷ setpoint)) (strip_readback readback) explicit_owner h)
      e
add_pvs-IsPlanning readbacks q (PvItem.mapping (some []) readback ∷ items) p h e =
    absurd (ground arith)
add_pvs-IsPlanning readbacks q (PvItem.mapping none readback ∷ items) p h e = absurd (ground arith)
add_pvs-IsPlanning readbacks q (PvItem.other ∷ items) p h e = absurd (ground arith)

no_plan-IsPlanning : IsPlanning no_plan
no_plan-IsPlanning = (λ s. refl, tt, refl)

abbrev pub IsPlanned : ConfigurationPlan → Type 0
IsPlanned plan = Distinct plan.pv_list × (length plan.pv_list ≡ total plan.devices)

module _ {W : Type 0} where
  wanted-IsPlanning :
      (inventory : Option (Effect W InventoryListing)) (devices : List Str) (readbacks : Bool)
      (p : Planning) (w w' : W)
      → add_wanted inventory devices readbacks w ≡ (ok p, w')
      → IsPlanning p
  wanted-IsPlanning inventory [] readbacks p w w' e =
      subst IsPlanning {x = no_plan} {y = p} (ground arith) no_plan-IsPlanning
  wanted-IsPlanning none (d ∷ devices) readbacks p w w' e = absurd (ground arith)
  wanted-IsPlanning (some list_inventory) (d ∷ devices) readbacks p w w' e =
      let (listing, w₁, listed, e₁) =
        after_ok
          (λ (l : InventoryListing).
            pure (add_devices readbacks (put_all [] l.devices) no_plan (d ∷ devices)))
          (list_inventory w) p w' e in
      subst IsPlanning (pure_ok _ p w₁ w' e₁).0 (
        add_devices-IsPlanning readbacks (put_all [] listing.devices) (d ∷ devices) no_plan
          no_plan-IsPlanning)

  finished :
      (readbacks : Bool) (pvs : List PvItem) (p : Planning) (added : Result Planning)
      (plan : ConfigurationPlan) (w w' : W)
      → add_pvs readbacks p pvs ≡ added
      → IsPlanning p
      → finish readbacks pvs p w ≡ (ok plan, w')
      → IsPlanned plan
  finished readbacks pvs p (ok q) plan w w' added h e =
      let (s, distinct, counted) = add_pvs-IsPlanning readbacks q pvs p h added in
      subst IsPlanned {x = q.plan} {y = plan} (ground (arith, added)) (distinct, counted)
  finished readbacks pvs p (raise x) plan w w' added h e = absurd (ground (arith, added))

  -- A plan names every setpoint once, however the devices and the explicit PVs repeat it, and the
  -- lists of its owners have together as many setpoints as the plan.
  pub plan_configuration-IsPlanned :
      (inventory : Option (Effect W InventoryListing)) (devices : List Str) (readbacks : Bool)
      (pvs : List PvItem) (plan : ConfigurationPlan) (w w' : W)
      → plan_configuration inventory devices readbacks pvs w ≡ (ok plan, w')
      → IsPlanned plan
  unfolding plan_configuration
  plan_configuration-IsPlanned inventory devices readbacks pvs plan w w' e =
      let (p, w₁, wanted, e₁) =
        after_ok (finish readbacks pvs) (add_wanted inventory devices readbacks w) plan w' e in
      finished readbacks pvs p _ plan w₁ w' refl
        (wanted-IsPlanning inventory devices readbacks p w w₁ wanted) e₁
