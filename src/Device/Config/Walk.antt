-- ===== src/Device/Config/Walk.antt =====
-- The configuration descriptor that a host reads: its header counts it, and a walk behind the
-- header meets the descriptors of the groups, in order.
use mathlib.Core.Option.{some-injective}
use usbip_python.Base.{
  ℕ, ◌≡◌, refl, sym, ap, ◌∙◌, arith, List, [], ◌∷◌, ◌++◌, Option, some, length, length-append, join,
  join-append, All, All-append, >>=-some, >>=-some_last,
}
use usbip_python.Struct.{Bytes}
use usbip_python.Core.ConfigurationDescriptor
use usbip_python.Core.ConfigurationDescriptor.{ConfigurationDescriptor}
use usbip_python.Core.Walk.{iter_descriptors}
use usbip_python.Core.Walk.Laws.{IsDescriptor, iter_descriptors-join}
use usbip_python.Device.State.{State, Profile, DescriptorGroup}
use usbip_python.Device.Config.{render, render_groups, config_descriptor, config_bytes}

-- What the host has to read: a header that says the length of all of it and the number of
-- interfaces, for the one configuration, bus powered with 100 mA.
abbrev pub expected_header : {W : Type 0} → Profile W → Bytes → ConfigurationDescriptor
expected_header p blob = record {
  w_total_length = length blob;
  b_num_interfaces = p.num_interfaces;
  b_configuration_value = 1;
  i_configuration = 0;
  bm_attributes = 0x80;
  b_max_power = 50;
}

module _ {W : Type 0} (s : State W) where
  -- The blocks render to the descriptors `ds`, one after another.
  pub data Renders : List (State W → Option Bytes) → List Bytes → Type 0 where
    nothing : Renders [] []
    block :
        (b : State W → Option Bytes) (bs : List (State W → Option Bytes)) (here more : List Bytes)
        → b s ≡ some (join here)
        → All IsDescriptor here
        → Renders bs more
        → Renders (b ∷ bs) (here ++ more)

  pub data RendersAll : List (DescriptorGroup W) → List Bytes → Type 0 where
    none_left : RendersAll [] []
    group :
        (g : DescriptorGroup W) (gs : List (DescriptorGroup W)) (here more : List Bytes)
        → Renders g.blocks here
        → RendersAll gs more
        → RendersAll (g ∷ gs) (here ++ more)

  render_lem :
      {bs : List (State W → Option Bytes)} {ds : List Bytes}
      → Renders bs ds
      → (render bs s ≡ some (join ds)) × All IsDescriptor ds
  unfolding render
  render_lem nothing = (refl, tt)
  render_lem (block b bs here more e h r) =
      let (rest, all) = render_lem r in
      (
        rw (e, rest) (ap some (sym (join-append here more))),
        All-append IsDescriptor here more h all,
      )

  render_groups_lem :
      {gs : List (DescriptorGroup W)} {ds : List Bytes}
      → RendersAll gs ds
      → (render_groups gs s ≡ some (join ds)) × All IsDescriptor ds
  unfolding render_groups
  render_groups_lem none_left = (refl, tt)
  render_groups_lem (group g gs here more r rest) =
      let (first, h) = render_lem r in
      let (others, hs) = render_groups_lem rest in
      (
        rw (first, others) (ap some (sym (join-append here more))),
        All-append IsDescriptor here more h hs,
      )

  -- If the groups' blocks render to the descriptors `ds` and the device has a configuration
  -- descriptor, then the host parses from it a header with its whole length and the number of
  -- interfaces, and the walk behind the header yields `ds`.
  pub config_bytes_lem :
      (p : Profile W) (ds : List Bytes) (blob : Bytes)
      → RendersAll p.groups ds
      → config_bytes p s ≡ some blob
      → (ConfigurationDescriptor.parse blob ≡ some (expected_header p blob))
        × (iter_descriptors blob 9 ≡ ds)
  unfolding config_bytes
  config_bytes_lem p ds blob r e =
      let (body, hb, e1) = >>=-some (render_groups p.groups s) _ e in
      let (header, hh, e2) =
        >>=-some_last (ConfigurationDescriptor.pack (config_descriptor p body))
          (λ (header : Bytes). header ++ body) e1 in
      let (rendered, all) = render_groups_lem r in
      let same : body ≡ join ds = some-injective _ _ (sym hb ∙ rendered) in
      rw (e2, same) (parts header all (rw same at hh))
    where
      parts :
          (header : Bytes)
          → All IsDescriptor ds
          → ConfigurationDescriptor.pack (config_descriptor p (join ds)) ≡ some header
          → (ConfigurationDescriptor.parse (header ++ join ds)
              ≡ some (expected_header p (header ++ join ds)))
            × (iter_descriptors (header ++ join ds) 9 ≡ ds)
      parts header all hh =
          let c = config_descriptor p (join ds) in
          let size : length header ≡ 9 = ConfigurationDescriptor.length-pack_configuration c hh in
          (
            (ConfigurationDescriptor.parse-pack_configuration c header (join ds) hh).0
                ∙ ap (λ (n : ℕ). some (record c { w_total_length = n }))
                    (omega (arith, length-append header (join ds))),
            sym (ap (iter_descriptors (header ++ join ds)) size)
                ∙ iter_descriptors-join header ds all,
          )
