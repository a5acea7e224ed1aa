-- ===== src/Api/Network/Shuffling.antt =====
-- What `match` of network_types.go leaves of the specs that it compares, whatever its answer: the same
-- specs up to the order in the lists of their subnets.
use mathlib.Core.List.Perm
use mathlib.Core.List.{Perm}
use boshv.Base.{not, refl, sym, ◌∙◌, List, [], ◌∷◌, Str, ◌!=◌, eqb, Bool-cases, inl, inr}
use boshv.Base.Lists.{length}
use boshv.Base.Sorting.Laws.{sort-perm}
use boshv.Api.Types.{RawPtr, Subnet, NetworkSpec}
use boshv.Api.Network.Match.{
  Match, match_sorted, block, match_cloud_properties, match_lists, subnet_match, subnets_match,
  spec_match,
}
use boshv.Api.Network.Same.{SameSubnet, SameSubnets, SameSpec}

match_sorted-Perm :
    (xs ys : List Str) → Perm xs (match_sorted xs ys).1 × Perm ys (match_sorted xs ys).2
unfolding match_sorted
match_sorted-Perm xs ys = elim (Bool-cases (eqb (length xs) (length ys))) [
  | inl e ↦ rw e (Perm.symm (sort-perm xs), Perm.symm (sort-perm ys))
  | inr e ↦ rw e (Perm.refl xs, Perm.refl ys)
]

module _ (raw_string : RawPtr → Str) where
  abbrev Same : Subnet → Subnet → Type 0
  Same = SameSubnet raw_string

  -- The lists of a subnet in another order.
  reordered :
      (s : Subnet) (dns reserved static azs : List Str)
      → Perm s.dns dns
      → Perm s.reserved reserved
      → Perm s.static static
      → Perm s.azs azs
      → Same s (record s { dns = dns; reserved = reserved; static = static; azs = azs })
  reordered s dns reserved static azs d r t a = record {
    range = refl;
    gateway = refl;
    dns = d;
    reserved = r;
    static = t;
    azs = a;
    cloud_properties = refl;
  }

  Same-refl : (s : Subnet) → Same s s
  Same-refl s =
      reordered s s.dns s.reserved s.static s.azs (Perm.refl s.dns) (Perm.refl s.reserved)
        (Perm.refl s.static) (Perm.refl s.azs)

  Same-trans : (s t u : Subnet) → Same s t → Same t u → Same s u
  Same-trans s t u h k = record {
    range = h.range ∙ k.range;
    gateway = h.gateway ∙ k.gateway;
    dns = Perm.trans h.dns k.dns;
    reserved = Perm.trans h.reserved k.reserved;
    static = Perm.trans h.static k.static;
    azs = Perm.trans h.azs k.azs;
    cloud_properties = h.cloud_properties ∙ k.cloud_properties;
  }

  abbrev Shuffles : Match Subnet → Type 0
  Shuffles m = (s t : Subnet) → Same s (m s t).1 × Same t (m s t).2

  block-Shuffles :
      (get : Subnet → List Str) (set : Subnet → List Str → Subnet) (rest : Match Subnet)
      → ((s : Subnet) (xs : List Str) → Perm (get s) xs → Same s (set s xs))
      → Shuffles rest
      → Shuffles (block get set rest)
  unfolding block
  block-Shuffles get set rest h k s t =
      let p = match_sorted-Perm (get s) (get t) in
      let a = h s (match_sorted (get s) (get t)).1 p.0 in
      let b = h t (match_sorted (get s) (get t)).2 p.1 in
      let r = k (set s (match_sorted (get s) (get t)).1) (set t (match_sorted (get s) (get t)).2) in
      elim (Bool-cases (match_sorted (get s) (get t)).0) [
        | inl e ↦ rw (e, block) (Same-trans _ _ _ a r.0, Same-trans _ _ _ b r.1)
        | inr e ↦ rw (e, block) (a, b)
      ]

  -- The blocks from the last one on.
  abbrev from_azs : Match Subnet
  from_azs = block (λ s. s.azs) (λ s xs. record s { azs = xs }) (match_cloud_properties raw_string)

  abbrev from_static : Match Subnet
  from_static = block (λ s. s.static) (λ s xs. record s { static = xs }) from_azs

  abbrev from_reserved : Match Subnet
  from_reserved = block (λ s. s.reserved) (λ s xs. record s { reserved = xs }) from_static

  from_azs-Shuffles : Shuffles from_azs
  unfolding match_cloud_properties
  from_azs-Shuffles =
      block-Shuffles (λ s. s.azs) (λ s xs. record s { azs = xs })
        (match_cloud_properties raw_string)
        (λ s xs p.
          reordered s s.dns s.reserved s.static xs (Perm.refl s.dns) (Perm.refl s.reserved)
            (Perm.refl s.static) p)
        (λ s t. (Same-refl s, Same-refl t))

  from_static-Shuffles : Shuffles from_static
  from_static-Shuffles =
      block-Shuffles (λ s. s.static) (λ s xs. record s { static = xs }) from_azs
        (λ s xs p.
          reordered s s.dns s.reserved xs s.azs (Perm.refl s.dns) (Perm.refl s.reserved) p
            (Perm.refl s.azs))
        from_azs-Shuffles

  from_reserved-Shuffles : Shuffles from_reserved
  from_reserved-Shuffles =
      block-Shuffles (λ s. s.reserved) (λ s xs. record s { reserved = xs }) from_static
        (λ s xs p.
          reordered s s.dns xs s.static s.azs (Perm.refl s.dns) p (Perm.refl s.static)
            (Perm.refl s.azs))
        from_static-Shuffles

  match_lists-Shuffles : Shuffles (match_lists raw_string)
  unfolding match_lists
  match_lists-Shuffles =
      block-Shuffles (λ s. s.dns) (λ s xs. record s { dns = xs }) from_reserved
        (λ s xs p.
          reordered s xs s.reserved s.static s.azs p (Perm.refl s.reserved) (Perm.refl s.static)
            (Perm.refl s.azs))
        from_reserved-Shuffles

  subnet_match-Shuffles : Shuffles (subnet_match raw_string)
  unfolding subnet_match
  subnet_match-Shuffles s t = elim (Bool-cases (s.range != t.range)) [
    | inl e ↦ rw (e, subnet_match) (Same-refl s, Same-refl t)
    | inr e ↦ elim (Bool-cases (s.gateway != t.gateway)) [
      | inl g ↦ rw (e, g, subnet_match) (Same-refl s, Same-refl t)
      | inr g ↦ rw (e, g, subnet_match) (match_lists-Shuffles s t)
    ]
  ]

  SameSubnets-refl : (xs : List Subnet) → SameSubnets raw_string xs xs
  SameSubnets-refl [] = tt
  SameSubnets-refl (x ∷ xs) = (Same-refl x, SameSubnets-refl xs)

  subnets_match-Shuffles :
      (xs ys : List Subnet)
      → SameSubnets raw_string xs (subnets_match raw_string xs ys).1
        × SameSubnets raw_string ys (subnets_match raw_string xs ys).2
  unfolding subnets_match
  subnets_match-Shuffles [] ys = (tt, SameSubnets-refl ys)
  subnets_match-Shuffles (x ∷ xs) [] = (SameSubnets-refl (x ∷ xs), tt)
  subnets_match-Shuffles (x ∷ xs) (y ∷ ys) =
      let h = subnet_match-Shuffles x y in
      let k = subnets_match-Shuffles xs ys in
      elim (Bool-cases (subnet_match raw_string x y).0) [
        | inl e ↦ rw (e, subnets_match) ((h.0, k.0), (h.1, k.1))
        | inr e ↦ rw (e, subnets_match) ((h.0, SameSubnets-refl xs), (h.1, SameSubnets-refl ys))
      ]

  pub spec_match-Shuffles :
      (n1 n2 : NetworkSpec)
      → SameSpec raw_string n1 (spec_match raw_string n1 n2).1
        × SameSpec raw_string n2 (spec_match raw_string n1 n2).2
  unfolding spec_match
  spec_match-Shuffles n1 n2 = elim (Bool-cases (n1.type != n2.type)) [
    | inl e ↦
        rw (e, spec_match)
          ((refl, SameSubnets-refl n1.subnets), (refl, SameSubnets-refl n2.subnets))
    | inr e ↦ elim (Bool-cases (not (eqb (length n1.subnets) (length n2.subnets)))) [
      | inl g ↦
          rw (e, g, spec_match)
            ((refl, SameSubnets-refl n1.subnets), (refl, SameSubnets-refl n2.subnets))
      | inr g ↦
          let k = subnets_match-Shuffles n1.subnets n2.subnets in
          rw (e, g, spec_match) ((refl, k.0), (refl, k.1))
    ]
  ]

  pub SameSpec-refl : (n : NetworkSpec) → SameSpec raw_string n n
  SameSpec-refl n = (refl, SameSubnets-refl n.subnets)

  SameSubnets-trans :
      (xs ys zs : List Subnet)
      → SameSubnets raw_string xs ys
      → SameSubnets raw_string ys zs
      → SameSubnets raw_string xs zs
  SameSubnets-trans [] [] [] h k = tt
  SameSubnets-trans [] [] (z ∷ zs) h k = k
  SameSubnets-trans [] (y ∷ ys) zs h k = elim h [ ]
  SameSubnets-trans (x ∷ xs) [] zs h k = elim h [ ]
  SameSubnets-trans (x ∷ xs) (y ∷ ys) [] h k = k
  SameSubnets-trans (x ∷ xs) (y ∷ ys) (z ∷ zs) h k =
      (Same-trans x y z h.0 k.0, SameSubnets-trans xs ys zs h.1 k.1)

  pub SameSpec-trans :
      (n1 n2 n3 : NetworkSpec)
      → SameSpec raw_string n1 n2
      → SameSpec raw_string n2 n3
      → SameSpec raw_string n1 n3
  SameSpec-trans n1 n2 n3 h k =
      (h.0 ∙ k.0, SameSubnets-trans n1.subnets n2.subnets n3.subnets h.1 k.1)

  Same-symm : (s t : Subnet) → Same s t → Same t s
  Same-symm s t h = record {
    range = sym h.range;
    gateway = sym h.gateway;
    dns = Perm.symm h.dns;
    reserved = Perm.symm h.reserved;
    static = Perm.symm h.static;
    azs = Perm.symm h.azs;
    cloud_properties = sym h.cloud_properties;
  }

  SameSubnets-symm :
      (xs ys : List Subnet) → SameSubnets raw_string xs ys → SameSubnets raw_string ys xs
  SameSubnets-symm [] [] h = tt
  SameSubnets-symm [] (y ∷ ys) h = h
  SameSubnets-symm (x ∷ xs) [] h = h
  SameSubnets-symm (x ∷ xs) (y ∷ ys) h = (Same-symm x y h.0, SameSubnets-symm xs ys h.1)

  pub SameSpec-symm : (n1 n2 : NetworkSpec) → SameSpec raw_string n1 n2 → SameSpec raw_string n2 n1
  SameSpec-symm n1 n2 h = (sym h.0, SameSubnets-symm n1.subnets n2.subnets h.1)
