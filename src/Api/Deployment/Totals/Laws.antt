-- ===== src/Api/Deployment/Totals/Laws.antt =====
-- The sums over the containers of a deployment against exact sums.
use boshv.Base.{◌+◌, ◌%◌, ◌≡◌, refl, sym, ap, ◌∙◌, List, [], ◌∷◌, arith}
use boshv.Base.Int.{
  ℤ, pos, negsuc, ◌+ℤ◌, int_mod, residue, signed, wrap, add_int, residue-lt, residue-wrap,
}
use boshv.Api.Types.{Resources, Container, Deployment}
use boshv.Api.Deployment.Totals.{total, ram, cpu, ephemeral_disk_size, persistent_disk_size}

-- The sum without any bound.
pub exact : (Resources → ℤ) → List Container → ℤ
exact field [] = pos 0
exact field (c ∷ cs) = field c.resources +ℤ exact field cs

residue-add : (a b : ℤ) → residue (a +ℤ b) ≡ (residue a + residue b) % int_mod
unfolding residue ◌+ℤ◌
residue-add (pos a) (pos b) = ground arith
residue-add (pos a) (negsuc b) = ground arith
residue-add (negsuc a) (pos b) = ground arith
residue-add (negsuc a) (negsuc b) = ground arith

residue-add_int : (a b : ℤ) → residue (add_int a b) ≡ (residue a + residue b) % int_mod
unfolding add_int
residue-add_int a b = residue-wrap (a +ℤ b) ∙ residue-add a b

residue-total :
    (field : Resources → ℤ) (acc : ℤ) (cs : List Container)
    → residue (total field acc cs) ≡ (residue acc + residue (exact field cs)) % int_mod
unfolding total exact
residue-total field acc [] = ground (arith, residue-lt acc)
residue-total field acc (c ∷ cs) = omega (
  arith,
  residue-total field (add_int acc (field c.resources)) cs,
  residue-add_int acc (field c.resources),
  residue-add (field c.resources) (exact field cs),
)

add_int-wrapped : (a b : ℤ) → wrap (add_int a b) ≡ add_int a b
unfolding add_int wrap
add_int-wrapped a b = ap signed (residue-wrap (a +ℤ b))

-- Sums stay within the machine's integers.
total-wrapped :
    (field : Resources → ℤ) (acc : ℤ) (cs : List Container)
    → wrap acc ≡ acc
    → wrap (total field acc cs) ≡ total field acc cs
unfolding total
total-wrapped field acc [] h = h
total-wrapped field acc (c ∷ cs) h =
    total-wrapped field (add_int acc (field c.resources)) cs
      (add_int-wrapped acc (field c.resources))

in_range : (z : ℤ) → (residue (pos 0) + residue z) % int_mod ≡ residue z
unfolding residue
in_range z = omega (arith, residue-lt z)

total-exact :
    (field : Resources → ℤ) (cs : List Container) → total field (pos 0) cs ≡ wrap (exact field cs)
unfolding wrap
total-exact field cs =
    sym (total-wrapped field (pos 0) cs refl)
    ∙ ap signed (residue-total field (pos 0) cs ∙ in_range (exact field cs))

-- The RAM, the CPUs and the sizes of both disks of a deployment are the exact sums over its containers,
-- wrapped around once to 64 bits, however the sums on the way overflow.
pub totals_exact :
    (d : Deployment)
    → let cs = d.spec.containers in
      (ram d ≡ wrap (exact (λ r. r.ram) cs))
      × (cpu d ≡ wrap (exact (λ r. r.cpu) cs))
      × (ephemeral_disk_size d ≡ wrap (exact (λ r. r.ephemeral_disk_size) cs))
      × (persistent_disk_size d ≡ wrap (exact (λ r. r.persistent_disk_size) cs))
unfolding ram cpu ephemeral_disk_size persistent_disk_size
totals_exact d = (total-exact _ _, total-exact _ _, total-exact _ _, total-exact _ _)
