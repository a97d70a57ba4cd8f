-- ===== src/Tools/Previews.antt =====
-- The previews of the save-and-restore tools, over the HTTP client.
use argus_mcp_server.Effects.{Effect}
use argus_mcp_server.Errors.{Exception, Result, ok, raise}
use argus_mcp_server.Dict.{Dict}
use argus_mcp_server.Http.{Http, Call, Method}
use argus_mcp_server.Inventory.{InventoryListing}
use argus_mcp_server.Prelude.{
  ℕ, Str, str, Bool, List, [], ◌∷◌, Option, none, some, ◌≡◌, refl, inl, inr, ◌⊎◌,
}
use argus_mcp_server.SaveRestore.{restore_preview}
use argus_mcp_server.SaveRestore.Nodes.{SaveRestoreProvider, resolve_configuration}
use argus_mcp_server.SaveRestore.Plan.{
  SnrPvEntry, ConfigurationPlan, PvItem, Planning, plan_configuration, add_wanted, finish, add_pvs,
}
use argus_mcp_server.SaveRestore.Provider.{http_provider}
use argus_mcp_server.SaveRestore.Provider.ReadOnly.{
  Keeps, Reads, then-Keeps, http_provider-Reads, resolve_configuration-Keeps, restore_preview-Keeps,
}
use argus_mcp_server.Tools.Arguments.{arg, lift, str_or_empty}
use argus_mcp_server.Tools.SaveRestore.Describe.{
  describe_restore, describe_take_snapshot, describe_create_configuration, planned, describe_plan,
}
use argus_mcp_server.Tools.SaveRestore.Fields.{Texts, string_list, pv_items}
use argus_mcp_server.Values.{Value}

Result-cases :
    {A : Type 0} (r : Result A) → ((a : A) × (r ≡ ok a)) ⊎ ((e : Exception) × (r ≡ raise e))
Result-cases (ok a) = inl (a, refl)
Result-cases (raise e) = inr (e, refl)

module _ {W : Type 0} (I : W → Type 0) where
  lift-Keeps : {A : Type 0} (r : Result A) → Keeps I (lift {W = W} r)
  lift-Keeps (ok a) w i = i
  lift-Keeps (raise e) w i = i

  -- Where there is an inventory, listing it keeps `I`.
  abbrev pub ListingKeeps : Option (Effect W InventoryListing) → Type 0
  ListingKeeps none = Unit
  ListingKeeps (some list_inventory) = Keeps I list_inventory

  wanted-Keeps :
      (inventory : Option (Effect W InventoryListing)) (devices : List Str) (readbacks : Bool)
      → ListingKeeps inventory
      → Keeps I (add_wanted inventory devices readbacks)
  wanted-Keeps inventory [] readbacks h w i = i
  wanted-Keeps none (d ∷ ds) readbacks h w i = i
  wanted-Keeps (some list_inventory) (d ∷ ds) readbacks h w i =
      then-Keeps I list_inventory _ h (λ listing w' i'. i') w i

  finish-Keeps :
      (readbacks : Bool) (pvs : List PvItem) (p : Planning)
      → Keeps I (finish {W = W} readbacks pvs p)
  finish-Keeps readbacks pvs p w i = elim (Result-cases (add_pvs readbacks p pvs)) [
    | inl (q, e) ↦ rw (e, finish) i
    | inr (x, e) ↦ rw (e, finish) i
  ]

  plan-Keeps :
      (inventory : Option (Effect W InventoryListing)) (devices : List Str) (readbacks : Bool)
      (pvs : List PvItem)
      → ListingKeeps inventory
      → Keeps I (plan_configuration inventory devices readbacks pvs)
  unfolding plan_configuration
  plan-Keeps inventory devices readbacks pvs h =
      then-Keeps I (add_wanted inventory devices readbacks) _
        (wanted-Keeps inventory devices readbacks h) (finish-Keeps readbacks pvs)

module _ {W : Type 0} (I : W → Type 0) (provider : SaveRestoreProvider W) (reads : Reads I provider)
    (t : Texts) (inventory : Option (Effect W InventoryListing))
    (listing : ListingKeeps I inventory) where
  describe_plan-Keeps :
      (arguments : Dict Value) (plan : ConfigurationPlan)
      → Keeps I (describe_plan provider inventory t arguments plan)
  describe_plan-Keeps arguments plan w i = kept plan.pv_list refl
    where
      kept :
          (pvs : List SnrPvEntry)
          → plan.pv_list ≡ pvs
          → I (describe_plan provider inventory t arguments plan w).1
      kept [] e = rw (e, describe_plan) i
      kept (pv ∷ pvs) e =
          rw (e, describe_plan)
            (then-Keeps I
              (provider.resolve_folder (str_or_empty t.repr (arg arguments (str "folder")))) _
              (reads.folder (str_or_empty t.repr (arg arguments (str "folder"))))
              (λ place w' i'. i') w i)

  create-Keeps :
      (arguments : Dict Value)
      → Keeps I (describe_create_configuration provider inventory t arguments)
  unfolding describe_create_configuration
  create-Keeps arguments =
      then-Keeps I (planned provider inventory t arguments) _
        (then-Keeps I (lift (string_list (arg arguments (str "devices")) (str "devices"))) _
          (lift-Keeps I _)
          (λ devices.
            then-Keeps I (lift (pv_items t.repr (arg arguments (str "pvs")))) _ (lift-Keeps I _)
              (λ pvs. plan-Keeps I inventory devices _ pvs listing)))
        (describe_plan-Keeps arguments)

  take-Keeps : (arguments : Dict Value) → Keeps I (describe_take_snapshot provider t arguments)
  unfolding describe_take_snapshot
  take-Keeps arguments =
      then-Keeps I
        (resolve_configuration provider t.quoted
          (str_or_empty t.repr (arg arguments (str "configuration"))))
        _ (resolve_configuration-Keeps I provider reads t.quoted _) (λ found w i. i)

  restore-Keeps : (arguments : Dict Value) → Keeps I (describe_restore provider t arguments)
  unfolding describe_restore
  restore-Keeps arguments =
      then-Keeps I
        (restore_preview provider t.quoted (str_or_empty t.repr (arg arguments (str "snapshot")))
          (str_or_empty t.repr (arg arguments (str "configuration"))))
        _ (restore_preview-Keeps I provider reads t.quoted _ _) (λ preview w i. i)

-- Whatever holds of the world and is kept by every GET and by listing the inventory is kept by the
-- previews of all three save-and-restore writes: a preview sends no request that is not a GET.
pub previews-Keep :
    {W : Type 0} (I : W → Type 0) (http : Http W) (configured : Bool) (why : Value → Str)
    (local_time : ℕ → ℕ) (repr : Str → Str) (t : Texts)
    (inventory : Option (Effect W InventoryListing)) (arguments : Dict Value)
    → ((call : Call) (w : W) → call.method ≡ Method.get → I w → I (http call w).1)
    → ListingKeeps I inventory
    → Keeps I (
        describe_create_configuration
          (http_provider http configured why local_time repr)
          inventory
          t
          arguments)
      × Keeps I
          (describe_take_snapshot (http_provider http configured why local_time repr) t arguments)
      × Keeps I (describe_restore (http_provider http configured why local_time repr) t arguments)
previews-Keep I http configured why local_time repr t inventory arguments gets listing =
    let provider = http_provider http configured why local_time repr in
    let reads = http_provider-Reads I http configured why local_time repr gets in
    (
      create-Keeps I provider reads t inventory listing arguments,
      take-Keeps I provider reads t inventory listing arguments,
      restore-Keeps I provider reads t inventory listing arguments,
    )
