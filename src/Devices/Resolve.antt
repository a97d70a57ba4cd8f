-- ===== src/Devices/Resolve.antt =====
-- A device is always resolved, and a search keeps every channel.
use mathlib.Core.Path.{subst}
use argus_mcp_server.Diagnostics.{Device}
use argus_mcp_server.Dict
use argus_mcp_server.Dict.{Dict}
use argus_mcp_server.Errors.{Exception, Result, ok, raise}
use argus_mcp_server.Operations.{slice_to}
use argus_mcp_server.Prelude.{
  ℕ, ◌+◌, Str, ◌++◌, true, false, List, [], ◌∷◌, Option, none, some, map, str_eq, ◌≡◌, refl, arith,
  length, length-append, Bool-cases, inl, inr,
}
use argus_mcp_server.Values.{ℤ}
use argus_mcp_server.Devices.{
  CfChannel, ChannelFinder, is_channelfinder_error, build_device, recover, from_channel, from_found,
  resolve_device_uncached, group, device_name, devices_of, search_devices,
}

module _ {W : Type 0} where
  recover_raise :
      {A : Type 0} (a : A) (r : Result A × W) (e : Exception) (w' : W)
      → recover a r ≡ (raise e, w')
      → is_channelfinder_error e ≡ false
  recover_raise a (ok b, w) e w' h = absurd (ground arith)
  recover_raise a (raise x, w) e w' h = ground arith

  from_channel_raise :
      (name : Str) (r : Result (Option CfChannel) × W) (e : Exception) (w' : W)
      → from_channel name r ≡ (raise e, w')
      → r ≡ (raise e, w')
  from_channel_raise name (ok none, w) e w' h = absurd (ground arith)
  from_channel_raise name (ok (some c), w) e w' h = absurd (ground arith)
  from_channel_raise name (raise x, w) e w' h = ground arith

  from_found_raise :
      (cf : ChannelFinder W) (name : Str) (r : Result (List CfChannel) × W) (e : Exception) (w' : W)
      → (is_ok : (x : Exception) (v : W) → r ≡ (raise x, v) → is_channelfinder_error x ≡ false)
      → from_found cf name r ≡ (raise e, w')
      → is_channelfinder_error e ≡ false
  from_found_raise cf name (raise x, w) e w' other h = other e w' (ground arith)
  from_found_raise cf name (ok [], w) e w' other h =
      recover_raise none (cf.get_channel name w) e w'
        (from_channel_raise name (recover none (cf.get_channel name w)) e w' h)
  from_found_raise cf name (ok (c ∷ cs), w) e w' other h = absurd (ground arith)

  -- No error of ChannelFinder leaves a resolution: where it raises at all, it raises something else.
  resolve_device_uncached_raise :
      (cf : ChannelFinder W) (name : Str) (e : Exception) (w w' : W)
      → resolve_device_uncached cf name w ≡ (raise e, w')
      → is_channelfinder_error e ≡ false
  unfolding resolve_device_uncached
  resolve_device_uncached_raise cf name e w w' h = elim (Bool-cases cf.is_configured) [
    | inl on ↦
        from_found_raise cf name (recover [] (cf.find_by_device name w)) e w'
          (λ x v. recover_raise [] (cf.find_by_device name w) x v) (ground (arith, on))
    | inr off ↦ absurd (ground (arith, off))
  ]

-- How many channels the groups hold.
abbrev pub total : Dict (List CfChannel) → ℕ
total [] = 0
total ((name, channels) ∷ groups) = length channels + total groups

abbrev pub append_to : Dict (List CfChannel) → Str → CfChannel → Dict (List CfChannel)
append_to groups name c =
    Dict.put groups name
      ((elim (Dict.get groups name) [ none ↦ [] | some found ↦ found ]) ++ c ∷ [])

total-append_to :
    (groups : Dict (List CfChannel)) (name : Str) (c : CfChannel)
    → total (append_to groups name c) ≡ total groups + 1
unfolding Dict.put Dict.get
total-append_to [] name c = refl
total-append_to ((o, s) ∷ groups) name c =
    ground (arith, total-append_to groups name c, length-append s (c ∷ []))

total-group :
    (channels : List CfChannel) (groups : Dict (List CfChannel))
    → total (group groups channels) ≡ total groups + length channels
unfolding group
total-group [] groups = omega arith
total-group (c ∷ cs) groups = omega (
  arith,
  total-group cs (append_to groups (device_name c) c),
  total-append_to groups (device_name c) c,
)

abbrev pub pv_count : List Device → ℕ
pv_count [] = 0
pv_count (d ∷ ds) = length d.pv_names + pv_count ds

length-map : (f : CfChannel → Str) (cs : List CfChannel) → length (map f cs) ≡ length cs
length-map f [] = refl
length-map f (c ∷ cs) = omega (arith, length-map f cs)

pv_count-build :
    (groups : Dict (List CfChannel))
    → pv_count (map (λ e. build_device e.0 e.1) groups) ≡ total groups
unfolding build_device
pv_count-build [] = refl
pv_count-build ((name, channels) ∷ groups) =
    omega (arith, pv_count-build groups, length-map (λ (c : CfChannel). c.name) channels)

module _ {W : Type 0} where
  devices_count :
      (limit : ℤ) (channels : List CfChannel) (w w' : W) (devices : List Device)
      → devices_of limit (ok channels, w) ≡ (ok devices, w')
      → pv_count devices ≡ length (slice_to channels limit)
  devices_count limit channels w w' devices e =
      subst (λ ds. pv_count ds ≡ length (slice_to channels limit))
        {x = map (λ g. build_device g.0 g.1) (group [] (slice_to channels limit))} {y = devices}
        (ground arith)
        (omega (
          arith,
          pv_count-build (group [] (slice_to channels limit)),
          total-group (slice_to channels limit) [],
        ))

  -- No channel of a search is lost or doubled in count: its devices have together as many PVs as
  -- ChannelFinder gave channels, up to the limit.
  search_devices_count :
      (cf : ChannelFinder W) (query : Str) (limit : ℤ) (channels : List CfChannel)
      (devices : List Device) (w w₁ w' : W)
      → cf.is_configured ≡ true
      → cf.find_by_name query w ≡ (ok channels, w₁)
      → search_devices cf query limit w ≡ (ok devices, w')
      → pv_count devices ≡ length (slice_to channels limit)
  unfolding search_devices
  search_devices_count cf query limit channels devices w w₁ w' on found e =
      devices_count limit channels w₁ w' devices (ground (arith, on, found))
