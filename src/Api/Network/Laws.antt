-- ===== src/Api/Network/Laws.antt =====
-- `PrepareToSave` of network_types.go: its warning, and what the sorting in `match` does to the object.
use boshv.Base.{not, ◌≡◌, ◌≢◌, ◌↔◌, [], Str, str, ◌==◌, arith}
use boshv.Api.Types.{Network, RawPtr}
use boshv.Api.Network.Match.{spec_match}
use boshv.Api.Network.Same.{SameSpec, spec_match_iff, sorted_spec, spec_match_sorts}
use boshv.Api.Network.{prepare_to_save}

module _ (raw_string : RawPtr → Str) where
  warning_tests :
      (n : Network)
      → n.status.original_spec.type ≢ []
      → ((prepare_to_save raw_string n).1.status.warning == [])
        ≡ (spec_match raw_string n.status.original_spec n.spec).0
  unfolding prepare_to_save str
  warning_tests n h = ground arith

  -- A network that has an original spec with a type is left with an empty warning exactly if its spec
  -- is the original one up to the order in the lists of the subnets.
  pub network_warned :
      (n : Network)
      → n.status.original_spec.type ≢ []
      → ((prepare_to_save raw_string n).1.status.warning ≡ [])
        ↔ SameSpec raw_string n.status.original_spec n.spec
  network_warned n h = (
    λ e.
        (spec_match_iff raw_string n.status.original_spec n.spec).0
          (ground (arith, warning_tests n h)),
    λ s.
        ground
          (arith, warning_tests n h, (spec_match_iff raw_string n.status.original_spec n.spec).1 s),
  )

  -- Saving a network whose spec is still its original one, up to order, sorts every list in both: the
  -- order that the user gave to the DNS servers is gone from the original spec, from which the network
  -- in BOSH is made.
  pub prepare_to_save_sorts :
      (n : Network)
      → n.status.original_spec.type ≢ []
      → SameSpec raw_string n.status.original_spec n.spec
      → ((prepare_to_save raw_string n).1.status.original_spec
          ≡ sorted_spec raw_string n.status.original_spec)
        × ((prepare_to_save raw_string n).1.spec ≡ sorted_spec raw_string n.spec)
        × ((prepare_to_save raw_string n).0 ≡ not (n.status.warning == []))
  unfolding prepare_to_save
  prepare_to_save_sorts n h s =
      let e = (spec_match_iff raw_string n.status.original_spec n.spec).1 s in
      ground (arith, spec_match_sorts raw_string n.status.original_spec n.spec e)
