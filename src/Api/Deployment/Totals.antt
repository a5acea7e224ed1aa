-- ===== src/Api/Deployment/Totals.antt =====
-- The sums and the defaulted settings of api/v1/deployment_types.go. An `int` has 64 bits.
pub mod Laws
pub mod WatchTime
use boshv.Base.{[], ◌∷◌, ◌++◌, List, Str, str, ◌==◌, if◌then◌else◌, ite}
use boshv.Base.Int.{ℤ, pos, add_int, mul_int, ℤ_discrete}
use boshv.Base.Decimal.{format_int}
use boshv.Api.Types.{Deployment, Container, Resources}
use boshv.Remote.Config.{IntOrString, int, string}

-- The loop of `ram`, `cpu`, `ephemeralDiskSize` and `persistentDiskSize`: `sum += field(c)`.
unfoldable pub total : (Resources → ℤ) → ℤ → List Container → ℤ
unfolding add_int
total field acc [] = acc
total field acc (c ∷ cs) = total field (add_int acc (field c.resources)) cs

unfoldable pub ram : Deployment → ℤ
unfolding total
ram d = total (λ r. r.ram) (pos 0) d.spec.containers

unfoldable pub cpu : Deployment → ℤ
unfolding total
cpu d = total (λ r. r.cpu) (pos 0) d.spec.containers

unfoldable pub ephemeral_disk_size : Deployment → ℤ
unfolding total
ephemeral_disk_size d = total (λ r. r.ephemeral_disk_size) (pos 0) d.spec.containers

unfoldable pub persistent_disk_size : Deployment → ℤ
unfolding total
persistent_disk_size d = total (λ r. r.persistent_disk_size) (pos 0) d.spec.containers

unfoldable pub max_unavailable : Deployment → IntOrString
max_unavailable d =
    if d.spec.update_strategy.max_unavailable_percent == []
    then int d.spec.update_strategy.max_unavailable_replicas
    else string d.spec.update_strategy.max_unavailable_percent

unfoldable pub watch_time : Deployment → IntOrString
unfolding mul_int format_int
watch_time d =
    ite (ℤ_discrete d.spec.update_strategy.max_ready_seconds (pos 0))
      (int (mul_int (pos 1000) d.spec.update_strategy.min_ready_seconds))
      (string (
        format_int (mul_int (pos 1000) d.spec.update_strategy.min_ready_seconds)
        ++ (str "-" ++ format_int (mul_int (pos 1000) d.spec.update_strategy.max_ready_seconds))))

unfoldable pub vm_strategy : Deployment → Str
vm_strategy d =
    if d.spec.update_strategy.type == [] then str "delete-create" else d.spec.update_strategy.type
