-- ===== src/Api/Types.antt =====
-- The structs of api/v1/*_types.go. `TypeMeta` and the list types carry no logic and are left out.
mod Meta
mod Cloud
mod Software
mod Tenancy
pub use Meta.*
pub use Cloud.*
pub use Software.*
pub use Tenancy.*
