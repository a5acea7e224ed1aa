-- ===== src/Api/Types/Meta.antt =====
-- `metav1.ObjectMeta`, as far as the source reads and writes it, and the shape that all kinds share.
use boshv.Base.{Bool, Option, List, Str}

-- Of the deletion timestamp the source asks only whether it is zero. The resource version is the
-- API server's: the source carries it along and never reads it.
pub record ObjectMeta : Type 0 where
  pub name : Str
  pub namespace : Str
  pub finalizers : List Str
  pub deletion_timestamp_is_zero : Bool
  pub resource_version : Str

-- A kind embeds the metadata, and has a spec and a status.
pub record Object (Spec Status : Type 0) : Type 0 where
  pub metadata : ObjectMeta
  pub spec : Spec
  pub status : Status

module _ {Spec Status : Type 0} where
  abbrev pub name : Object Spec Status → Str
  name o = o.metadata.name

  abbrev pub namespace : Object Spec Status → Str
  namespace o = o.metadata.namespace

  abbrev pub finalizers : Object Spec Status → List Str
  finalizers o = o.metadata.finalizers

  -- `SetFinalizers`
  abbrev pub set_finalizers : Object Spec Status → List Str → Object Spec Status
  set_finalizers o fs = record o { metadata = record o.metadata { finalizers = fs } }

  abbrev pub set_status : Object Spec Status → Status → Object Spec Status
  set_status o s = record o { status = s }

-- The bytes of a `runtime.RawExtension`; a pointer to one is an `Option`.
pub record RawExtension : Type 0 where
  pub raw : Str

abbrev pub RawPtr : Type 0
RawPtr = Option RawExtension
