-- ===== src/Api/Helpers.antt =====
-- api/v1/helpers.go and api/v1/common.go.
pub mod Names
pub mod Finalizers
use boshv.Base.{Bool, true, false, List, [], ◌∷◌, Str, str, join, ◌==◌, if◌then◌else◌}
use boshv.Api.Base32.{to_lower, encode_to_string}

abbrev pub resource_mutation_warning : Str
resource_mutation_warning = str "API resource has been mutated; all changes ignored"

abbrev pub finalizer_base : Str
finalizer_base = str "finalizers.bosh.akgupta.ca"

unfoldable pub contains_string : List Str → Str → Bool
contains_string [] s = false
contains_string (item ∷ slice) s = if item == s then true else contains_string slice s

unfoldable pub remove_string : List Str → Str → List Str
remove_string [] s = []
remove_string (item ∷ slice) s =
    let rest = remove_string slice s in if item == s then rest else item ∷ rest

unfoldable pub standard_name : Str → Str → Str
standard_name namespace name = to_lower (encode_to_string (join (str "/") (namespace ∷ name ∷ [])))
