-- ===== src/Api/Network/Match.antt =====
-- `match` of `NetworkSpec` and of `Subnet` in api/v1/network_types.go. A subnet is passed by value,
-- but the arrays of its slices are shared with the caller, so the sorting is seen outside: each
-- function gives back both its arguments as it leaves them.
use boshv.Base.{Bool, true, false, List, [], ◌∷◌, Str, ◌==◌, ◌!=◌, if◌then◌else◌, eqb, not}
use boshv.Base.Lists.{length}
use boshv.Base.Sorting.{sort_strings}
use boshv.Api.Types.{RawPtr, Subnet, NetworkSpec}

-- `for i, d1 := range xs { if d1 != ys[i] { return false } }`, where the lengths are known to be equal;
-- on a shorter `ys` the index would panic.
unfoldable pub same_items : List Str → List Str → Bool
same_items [] ys = true
same_items (x ∷ xs) [] = false
same_items (x ∷ xs) (y ∷ ys) = if x != y then false else same_items xs ys

-- One of the four blocks that compare two lists of strings.
unfoldable pub match_sorted : List Str → List Str → Bool × List Str × List Str
unfolding same_items sort_strings
match_sorted xs ys =
    if not (eqb (length xs) (length ys))
    then (false, xs, ys)
    else (same_items (sort_strings xs) (sort_strings ys), sort_strings xs, sort_strings ys)

abbrev pub Match : Type 0 → Type 0
Match S = S → S → Bool × S × S

-- A block and what follows it, which is reached if the block finds no difference.
unfoldable pub block :
    (Subnet → List Str) → (Subnet → List Str → Subnet) → Match Subnet → Match Subnet
unfolding match_sorted
block get set rest s1 s2 =
    let (same, xs, ys) = match_sorted (get s1) (get s2) in
    if same then rest (set s1 xs) (set s2 ys) else (false, set s1 xs, set s2 ys)

module _ (raw_string : RawPtr → Str) where
  unfoldable pub match_cloud_properties : Match Subnet
  match_cloud_properties s1 s2 =
      (raw_string s1.cloud_properties == raw_string s2.cloud_properties, s1, s2)

  unfoldable pub match_lists : Match Subnet
  unfolding block match_cloud_properties
  match_lists =
      block (λ s. s.dns) (λ s xs. record s { dns = xs })
        (block (λ s. s.reserved) (λ s xs. record s { reserved = xs })
          (block (λ s. s.static) (λ s xs. record s { static = xs })
            (block (λ s. s.azs) (λ s xs. record s { azs = xs }) match_cloud_properties)))

  unfoldable pub subnet_match : Match Subnet
  subnet_match s1 s2 =
      if s1.range != s2.range
      then (false, s1, s2)
      else if s1.gateway != s2.gateway
      then (false, s1, s2)
      else match_lists s1 s2

  -- The loop over the subnets, of which there are equally many.
  unfoldable pub subnets_match : Match (List Subnet)
  subnets_match [] ys = (true, [], ys)
  subnets_match (x ∷ xs) [] = (false, x ∷ xs, [])
  subnets_match (x ∷ xs) (y ∷ ys) =
      let (same, x', y') = subnet_match x y in
      let (rest, xs', ys') = subnets_match xs ys in
      if same then (rest, x' ∷ xs', y' ∷ ys') else (false, x' ∷ xs, y' ∷ ys)

  unfoldable pub spec_match : Match NetworkSpec
  spec_match n1 n2 =
      if n1.type != n2.type
      then (false, n1, n2)
      else if not (eqb (length n1.subnets) (length n2.subnets))
      then (false, n1, n2)
      else let (same, xs, ys) = subnets_match n1.subnets n2.subnets in
        (same, record n1 { subnets = xs }, record n2 { subnets = ys })
