-- ===== src/Tests.antt =====
-- Sample data for the runs in the modules below, which apply the theorems at concrete inputs.
pub mod Domain
pub mod Service
pub mod Database
pub mod Delivery
pub mod Messages
pub mod Schedules
pub mod Projection
pub mod Outside
pub mod EndToEnd
pub mod Processes
pub mod Web
use Prim.Native.String.{compare}
use text.Mathlib.Text.{is_le}
use Prim.Native.Char.{Char, code}
use process_path_management.Prelude.{
  ℕ, ◌+◌, ◌*◌, ◌/◌, String, Bool, true, false, List, [], ◌∷◌, Option, none, some, ◌==◌, nat_eq,
  if◌then◌else◌,
}
use process_path_management.Prelude.Int.{ℤ, pos}
use process_path_management.Shared.Platform.{Platform}
use process_path_management.Shared.Eligibility.{Eligibility, new_eligibility}
use process_path_management.ProcessPath.{ProcessPath, active, deactivated}
use process_path_management.CptSchedule.{CptSchedule}
use process_path_management.CptSchedule.Cutoffs.{Cutoff}
use process_path_management.Memory.{World}

-- a platform that knows one capital letter, one zone and one duration
abbrev pub platform : Platform
platform = record {
  lower_rune = λ c. if nat_eq (code c) 80 then "p" else c;
  zone_known = λ z. z == "America/Sao_Paulo";
  parse_duration = λ t. if t == "30m0s" then some (pos 1800000000000) else none;
  show_duration = λ d. "30m0s";
  show_time = λ t. "2026-01-01T00:00:00Z";
  text_le = λ a b. is_le (compare a b);
  stored_time = λ t. t / 1000 * 1000;
}

abbrev pub rules : Eligibility
rules = new_eligibility (some (pos 5)) ("hazmat" ∷ []) [] true

abbrev pub sample_path : ProcessPath
sample_path = record {
  id = "p1";
  match_prefix = "pick";
  direct = true;
  required_capabilities = "forklift" ∷ [];
  destination_location_role = "";
  cycle_time_p95 = pos 1800000000000;
  eligibility = rules;
  status = active;
  created_at = 7000;
  updated_at = 7000;
}

-- a path of half a microsecond
abbrev pub short_path : ProcessPath
short_path = record sample_path { cycle_time_p95 = pos 500 }

abbrev pub cutoff : Cutoff
cutoff = record {
  cpt_id = "c1";
  local_time = "23:59";
  days_of_week = "Mon" ∷ "Sun" ∷ [];
  ship_method = "ground";
  eligible_path_ids = "p2" ∷ "p1" ∷ "p2" ∷ [];
}

abbrev pub cpt_schedule : CptSchedule
cpt_schedule = record {
  site_id = "s1";
  timezone = "America/Sao_Paulo";
  cutoffs = cutoff ∷ [];
  created_at = 7000;
  updated_at = 7000;
}

abbrev pub empty_world : World
empty_world = record {
  paths = [];
  schedules = [];
  published = [];
  accepted = 0;
  rejected = 0;
  time = 7000;
  broken = [];
}

abbrev pub one_path : World
one_path = record empty_world { paths = ("p1", sample_path) ∷ []; time = 9000 }
