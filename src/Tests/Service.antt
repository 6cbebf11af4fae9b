-- ===== src/Tests/Service.antt =====
-- The theorems of the in-memory service and of its handlers at concrete inputs.
use process_path_management.Prelude.{arith, true, List, [], ◌∷◌, none, some, ◌≡◌, ◌↔◌, refl}
use process_path_management.Prelude.Int.{pos}
use process_path_management.Prelude.Assoc.{lookup}
use process_path_management.Errors.{ok, err, other, path_already_exists}
use process_path_management.Shared.{parse_destination_location_role}
use process_path_management.Shared.Platform.{to_lower}
use process_path_management.ProcessPath
use process_path_management.ProcessPath.{is_active, ProcessPath}
use process_path_management.UseCases.{define_path}
use process_path_management.Catalogue.{Change, IsWellFormed, Keeps}
use process_path_management.Memory.{World, define_wired, find_by_id, save}
use process_path_management.Memory.Laws.{
  Request, define, revise, deactivate, environment, view, run, run_all, run-Change, run_all-Keeps,
}
use process_path_management.Memory.Requests.{works, define_path-ok_iff, define_path-unpublished}
use process_path_management.Memory.Listing.{Lists, run_all-Lists}
use process_path_management.Http.Dto.{DefineProcessPathRequest, parse_cycle_time}
use process_path_management.Http.Problems.{write_json}
use process_path_management.Http.{decoded, handle_define_path}
use process_path_management.Http.HandlerLaws.{memory_server}
use process_path_management.Tests.{platform, rules, sample_path, empty_world, one_path}

made :
    ProcessPath.define platform "p1" "pick" true ("forklift" ∷ []) "" (pos 1800000000000) rules 7000
    ≡ ok sample_path
unfolding ProcessPath.define ProcessPath.validate to_lower parse_destination_location_role
made = refl

define_path-ok_iff_example :
    ((define_path platform define_wired "p1" "pick" true
        ("forklift" ∷ [])
        ""
        (pos 1800000000000)
        rules
        empty_world).0
      ≡ ok sample_path)
    ↔ ((lookup "p1" empty_world.paths ≡ none)
        × (ProcessPath.define platform "p1" "pick" true
              ("forklift" ∷ [])
              ""
              (pos 1800000000000)
              rules
              7000
            ≡ ok sample_path)
        × (works empty_world.broken ≡ true))
define_path-ok_iff_example =
    define_path-ok_iff platform "p1" "pick" true ("forklift" ∷ []) "" (pos 1800000000000) rules
      empty_world sample_path

free : lookup "p1" empty_world.paths ≡ none
unfolding lookup
free = refl

abbrev broken_world : World
broken_world = record empty_world { broken = true ∷ [] }

define_path-unpublished_example :
    let first =
      define_path platform define_wired "p1" "pick" true
        ("forklift" ∷ [])
        ""
        (pos 1800000000000)
        rules
        broken_world in
    (first.0 ≡ err (other "publish failed"))
    × (first.1.published ≡ [])
    × (lookup "p1" first.1.paths ≡ some sample_path)
    × ((define_path platform define_wired "p1" "pick" true
          ("forklift" ∷ [])
          ""
          (pos 1800000000000)
          rules
          first.1).0
        ≡ err path_already_exists)
define_path-unpublished_example =
    define_path-unpublished platform "p1" "pick" true ("forklift" ∷ []) "" (pos 1800000000000) rules
      broken_world sample_path [] free made refl

run-Change_example :
    Change platform (view one_path) (view (run platform (deactivate "p1") one_path))
run-Change_example = run-Change platform (deactivate "p1") one_path

pub empty-IsWellFormed : IsWellFormed platform (view empty_world)
unfolding lookup
empty-IsWellFormed = λ id p h. ground arith

abbrev requests : List Request
requests =
    define "p1" "pick" true ("forklift" ∷ []) "" (pos 1800000000000) rules
    ∷ environment 9000 (true ∷ [])
    ∷ revise "p1" "pack" ("forklift" ∷ []) (pos 500) rules
    ∷ deactivate "p1"
    ∷ []

run_all-Keeps_example :
    IsWellFormed platform (view (run_all platform requests empty_world))
    × Keeps platform (view empty_world) (view (run_all platform requests empty_world))
run_all-Keeps_example = run_all-Keeps platform requests empty_world empty-IsWellFormed

abbrev request : DefineProcessPathRequest
request = record {
  path_id = "p1";
  match_prefix = "pick";
  direct = true;
  required_capabilities = "forklift" ∷ [];
  destination_location_role = "";
  cycle_time_p95 = "30m0s";
  eligibility = none;
}

created_here :
    (handle_define_path platform memory_server "/process-paths"
      (decoded request)
      empty_world).0.status
    ≡ 201
unfolding handle_define_path parse_destination_location_role parse_cycle_time define_path
    ProcessPath.define ProcessPath.validate to_lower find_by_id lookup save write_json
created_here = refl

run_all-Lists_example :
    (ps : List ProcessPath) × Lists (run_all platform (deactivate "p1" ∷ []) one_path) true ps
unfolding lookup
run_all-Lists_example = run_all-Lists platform (deactivate "p1" ∷ []) one_path true (refl, refl, tt)
