-- ===== src/Api/Network/Same.antt =====
-- What `match` of network_types.go decides: equality of two network specs up to the order of the
-- strings in the lists of their subnets.
use mathlib.Core.List.{Perm}
use boshv.Base.{
  suc, Bool, true, ◌&&◌, ◌≡◌, ◌↔◌, refl, sym, ap, ◌∙◌, List, [], ◌∷◌, map, Str, ◌==◌, arith,
}
use boshv.Base.Lists.{length}
use boshv.Base.Sorting.{sort_strings}
use boshv.Base.Sorting.Laws.{sort-eq_iff, length-sort}
use boshv.Api.Types.{RawPtr, Subnet, NetworkSpec}
use boshv.Api.Network.Match.{
  same_items, match_sorted, match_lists, subnet_match, subnets_match, spec_match,
}

same_items_refl : (xs : List Str) → same_items xs xs ≡ true
unfolding same_items
same_items_refl [] = refl
same_items_refl (x ∷ xs) = ground (arith, same_items_refl xs)

same_items-eq : (xs ys : List Str) → length xs ≡ length ys → same_items xs ys ≡ true → xs ≡ ys
unfolding same_items
same_items-eq [] [] e h = refl
same_items-eq [] (y ∷ ys) e h = ground arith
same_items-eq (x ∷ xs) [] e h = ground arith
same_items-eq (x ∷ xs) (y ∷ ys) e h = ground (arith, same_items-eq xs ys)

abbrev same : List Str → List Str → Bool
same xs ys = (match_sorted xs ys).0

same-perm : (xs ys : List Str) → same xs ys ≡ true → Perm xs ys
unfolding match_sorted
same-perm xs ys h = (sort-eq_iff xs ys).0 (
    same_items-eq (sort_strings xs) (sort_strings ys)
      (ground (arith, length-sort xs, length-sort ys)) (ground arith))

perm-same : (xs ys : List Str) → Perm xs ys → same xs ys ≡ true
unfolding match_sorted
perm-same xs ys p =
    let e = (sort-eq_iff xs ys).1 p in
    ground
      (arith, ap length e, length-sort xs, length-sort ys, e, same_items_refl (sort_strings ys))

module _ (raw_string : RawPtr → Str) where
  -- The same subnet, up to the order in the four lists.
  pub record SameSubnet (s1 s2 : Subnet) : Type 0 where
    pub range : s1.range ≡ s2.range
    pub gateway : s1.gateway ≡ s2.gateway
    pub dns : Perm s1.dns s2.dns
    pub reserved : Perm s1.reserved s2.reserved
    pub static : Perm s1.static s2.static
    pub azs : Perm s1.azs s2.azs
    pub cloud_properties : raw_string s1.cloud_properties ≡ raw_string s2.cloud_properties

  abbrev pub SameSubnets : List Subnet → List Subnet → Type 0
  SameSubnets [] [] = Unit
  SameSubnets [] (y ∷ ys) = ⊥
  SameSubnets (x ∷ xs) [] = ⊥
  SameSubnets (x ∷ xs) (y ∷ ys) = SameSubnet x y × SameSubnets xs ys

  abbrev pub SameSpec : NetworkSpec → NetworkSpec → Type 0
  SameSpec n1 n2 = (n1.type ≡ n2.type) × SameSubnets n1.subnets n2.subnets

  subnet_tests : Subnet → Subnet → Bool
  subnet_tests s1 s2 =
      s1.range == s2.range
      && (s1.gateway == s2.gateway
          && (same s1.dns s2.dns
              && (same s1.reserved s2.reserved
                  && (same s1.static s2.static
                      && (same s1.azs s2.azs
                          && raw_string s1.cloud_properties == raw_string s2.cloud_properties)))))

  subnet_match_tests : (s1 s2 : Subnet) → (subnet_match raw_string s1 s2).0 ≡ subnet_tests s1 s2
  unfolding subnet_match subnet_tests match_lists
  subnet_match_tests s1 s2 = ground arith

  subnet_match-SameSubnet :
      (s1 s2 : Subnet) → (subnet_match raw_string s1 s2).0 ≡ true → SameSubnet s1 s2
  unfolding subnet_tests
  subnet_match-SameSubnet s1 s2 h =
      let t = sym (subnet_match_tests s1 s2) ∙ h in
      record {
        range = ground arith;
        gateway = ground arith;
        dns = same-perm s1.dns s2.dns (ground arith);
        reserved = same-perm s1.reserved s2.reserved (ground arith);
        static = same-perm s1.static s2.static (ground arith);
        azs = same-perm s1.azs s2.azs (ground arith);
        cloud_properties = ground arith;
      }

  SameSubnet-subnet_match :
      (s1 s2 : Subnet) → SameSubnet s1 s2 → (subnet_match raw_string s1 s2).0 ≡ true
  unfolding subnet_tests
  SameSubnet-subnet_match s1 s2 h = ground (
    arith,
    subnet_match_tests s1 s2,
    h.range,
    h.gateway,
    perm-same s1.dns s2.dns h.dns,
    perm-same s1.reserved s2.reserved h.reserved,
    perm-same s1.static s2.static h.static,
    perm-same s1.azs s2.azs h.azs,
    h.cloud_properties,
  )

  subnets_match-SameSubnets :
      (xs ys : List Subnet)
      → length xs ≡ length ys
      → (subnets_match raw_string xs ys).0 ≡ true
      → SameSubnets xs ys
  unfolding subnets_match
  subnets_match-SameSubnets [] [] e h = tt
  subnets_match-SameSubnets [] (y ∷ ys) e h = absurd (omega arith)
  subnets_match-SameSubnets (x ∷ xs) [] e h = absurd (omega arith)
  subnets_match-SameSubnets (x ∷ xs) (y ∷ ys) e h = (
    subnet_match-SameSubnet x y (ground arith),
    subnets_match-SameSubnets xs ys (omega arith) (ground arith),
  )

  SameSubnets-subnets_match :
      (xs ys : List Subnet)
      → SameSubnets xs ys
      → (length xs ≡ length ys) × ((subnets_match raw_string xs ys).0 ≡ true)
  unfolding subnets_match
  SameSubnets-subnets_match [] [] h = (refl, refl)
  SameSubnets-subnets_match [] (y ∷ ys) h = absurd h
  SameSubnets-subnets_match (x ∷ xs) [] h = absurd h
  SameSubnets-subnets_match (x ∷ xs) (y ∷ ys) h =
      let (e, k) = SameSubnets-subnets_match xs ys h.1 in
      (ap suc e, ground (arith, k, SameSubnet-subnet_match x y h.0))

  -- `match` answers true exactly if the two specs have the same type and equally many subnets, and
  -- the subnets agree one by one up to the order of the DNS servers, reserved and static addresses
  -- and AZs, where cloud properties agree if they read alike.
  pub spec_match_iff :
      (n1 n2 : NetworkSpec) → ((spec_match raw_string n1 n2).0 ≡ true) ↔ SameSpec n1 n2
  unfolding spec_match
  spec_match_iff n1 n2 = (
    λ h. (
      ground arith,
      subnets_match-SameSubnets n1.subnets n2.subnets (ground arith) (ground arith),
    ),
    λ same_spec.
        let (e, k) = SameSubnets-subnets_match n1.subnets n2.subnets same_spec.1 in
        ground (arith, same_spec.0, e, k),
  )

  -- A subnet with its four lists sorted.
  abbrev pub sorted_subnet : Subnet → Subnet
  sorted_subnet s = record s {
    dns = sort_strings s.dns;
    reserved = sort_strings s.reserved;
    static = sort_strings s.static;
    azs = sort_strings s.azs;
  }

  abbrev pub sorted_spec : NetworkSpec → NetworkSpec
  sorted_spec n = record n { subnets = map sorted_subnet n.subnets }

  subnet_match_sorts :
      (s1 s2 : Subnet)
      → (subnet_match raw_string s1 s2).0 ≡ true
      → subnet_match raw_string s1 s2 ≡ (true, sorted_subnet s1, sorted_subnet s2)
  unfolding subnet_match match_lists match_sorted
  subnet_match_sorts s1 s2 h = ground arith

  subnets_match_sorts :
      (xs ys : List Subnet)
      → length xs ≡ length ys
      → (subnets_match raw_string xs ys).0 ≡ true
      → subnets_match raw_string xs ys ≡ (true, map sorted_subnet xs, map sorted_subnet ys)
  unfolding subnets_match
  subnets_match_sorts [] [] e h = refl
  subnets_match_sorts [] (y ∷ ys) e h = absurd (omega arith)
  subnets_match_sorts (x ∷ xs) [] e h = absurd (omega arith)
  subnets_match_sorts (x ∷ xs) (y ∷ ys) e h =
      ground (arith, subnet_match_sorts x y, subnets_match_sorts xs ys)

  -- Where it answers true, it leaves every list of both specs sorted.
  pub spec_match_sorts :
      (n1 n2 : NetworkSpec)
      → (spec_match raw_string n1 n2).0 ≡ true
      → spec_match raw_string n1 n2 ≡ (true, sorted_spec n1, sorted_spec n2)
  unfolding spec_match
  spec_match_sorts n1 n2 h = ground (arith, subnets_match_sorts n1.subnets n2.subnets)
