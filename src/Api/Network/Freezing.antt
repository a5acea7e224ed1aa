-- ===== src/Api/Network/Freezing.antt =====
-- `PrepareToSave` of network_types.go over a history of edits.
use boshv.Base.{
  Bool, true, false, not, ◌≡◌, ◌≢◌, ◌↔◌, sym, subst, List, [], ◌∷◌, Str, ◌!=◌, if◌then◌else◌,
  Bool-cases, inl, inr, arith,
}
use boshv.Api.Types.{Network, NetworkSpec, NetworkStatus, RawPtr}
use boshv.Api.Freezing.{Event, edit, save, run}
use boshv.Api.Network.Match.{spec_match}
use boshv.Api.Network.Same.{SameSpec}
use boshv.Api.Network.Shuffling.{spec_match-Shuffles, SameSpec-refl, SameSpec-trans, SameSpec-symm}
use boshv.Api.Network.Laws.{network_warned}
use boshv.Api.Network.{prepare_to_save}

module _ (raw_string : RawPtr → Str) where
  abbrev pub frozen : NetworkStatus → Bool
  frozen s = s.original_spec.type != []

  abbrev pub after : List (Event NetworkSpec) → Network → Network
  after =
      run (prepare_to_save raw_string) frozen (λ s. s.original_spec) (λ s. s.warning)
        (λ o s. not (spec_match raw_string o s).0)

  original-matched :
      (n : Network)
      → frozen n.status ≡ true
      → (prepare_to_save raw_string n).1.status.original_spec
        ≡ (spec_match raw_string n.status.original_spec n.spec).1
  unfolding prepare_to_save
  original-matched n h = ground arith

  original-Kept :
      (n : Network)
      → frozen n.status ≡ true
      → SameSpec raw_string n.status.original_spec
          (prepare_to_save raw_string n).1.status.original_spec
  original-Kept n h =
      subst (SameSpec raw_string n.status.original_spec) (sym (original-matched n h))
        (spec_match-Shuffles raw_string n.status.original_spec n.spec).0

  stays :
      (a b : NetworkSpec) → SameSpec raw_string a b → (a.type != []) ≡ true → (b.type != []) ≡ true
  stays a b h k = ground (arith, h.0)

  after-Kept :
      (events : List (Event NetworkSpec)) (n : Network)
      → frozen n.status ≡ true
      → SameSpec raw_string n.status.original_spec (after events n).status.original_spec
  unfolding run
  after-Kept [] n h = SameSpec-refl raw_string n.status.original_spec
  after-Kept (edit s ∷ events) n h = after-Kept events (record n { spec = s }) h
  after-Kept (save ∷ events) n h =
      let k = original-Kept n h in
      SameSpec-trans raw_string _ _ _ k
        (after-Kept events (prepare_to_save raw_string n).1 (stays _ _ k h))

  -- The original spec after the first save.
  abbrev pub first : Network → NetworkSpec
  first n = if frozen n.status then n.status.original_spec else n.spec

  original-fresh :
      (n : Network)
      → frozen n.status ≡ false
      → (prepare_to_save raw_string n).1.status.original_spec ≡ n.spec
  unfolding prepare_to_save
  original-fresh n h = ground arith

  first-Kept :
      (n : Network)
      → SameSpec raw_string (first n) (prepare_to_save raw_string n).1.status.original_spec
  first-Kept n = elim (Bool-cases (frozen n.status)) [
    | inl h ↦ rw h (original-Kept n h)
    | inr h ↦ rw h (
        subst (SameSpec raw_string n.spec) (sym (original-fresh n h))
          (SameSpec-refl raw_string n.spec))
  ]

  first-typed : (n : Network) → n.spec.type ≢ [] → ((first n).type != []) ≡ true
  first-typed n h = ground arith

  typed : (s : NetworkSpec) → (s.type != []) ≡ true → s.type ≢ []
  typed s h = ground arith

  -- The first save of a network whose spec has a type fixes its original spec, as its spec unless it had
  -- one. Over any edits of the spec and any saves it stays, up to the order in the lists of its
  -- subnets; and after a last save the warning is empty exactly if the spec that was saved is the
  -- original one up to that order.
  pub network_stays_frozen :
      (n : Network) (events : List (Event NetworkSpec))
      → n.spec.type ≢ []
      → let edited = after events (prepare_to_save raw_string n).1 in
        let last = (prepare_to_save raw_string edited).1 in
        SameSpec raw_string (first n) last.status.original_spec
        × ((last.status.warning ≡ []) ↔ SameSpec raw_string (first n) edited.spec)
  network_stays_frozen n events h =
      let saved = (prepare_to_save raw_string n).1 in
      let edited = after events saved in
      let k = first-Kept n in
      let f = stays (first n) saved.status.original_spec k (first-typed n h) in
      let l = SameSpec-trans raw_string _ _ _ k (after-Kept events saved f) in
      let g = stays (first n) edited.status.original_spec l (first-typed n h) in
      let w = network_warned raw_string edited (typed edited.status.original_spec g) in
      (
        SameSpec-trans raw_string _ _ _ l (original-Kept edited g),
        (
          λ e. SameSpec-trans raw_string _ _ _ l (w.0 e),
          λ e. w.1 (SameSpec-trans raw_string _ _ _ (SameSpec-symm raw_string _ _ l) e),
        ),
      )
