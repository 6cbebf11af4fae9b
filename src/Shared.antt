-- ===== src/Shared.antt =====
-- internal/domain/shared/shared.go: identifiers and the destination role.
pub mod Eligibility
pub mod Platform
use process_path_management.Prelude.{String, Bool, ◌||◌, ◌==◌, if◌then◌else◌}
use process_path_management.Errors.{Result, ok, err, invalid_destination_location_role}

abbrev pub PathId : Type 0
PathId = String

abbrev pub Capability : Type 0
Capability = String

abbrev pub SiteId : Type 0
SiteId = String

abbrev pub DestinationLocationRole : Type 0
DestinationLocationRole = String

abbrev pub role_unset : DestinationLocationRole
role_unset = ""

abbrev pub is_known_role : String → Bool
is_known_role s = s == role_unset || (s == "Drop" || (s == "WorkCenter" || s == "Shipping"))

unfoldable pub parse_destination_location_role : String → Result DestinationLocationRole
parse_destination_location_role s =
    if is_known_role s then ok s else err invalid_destination_location_role
