-- ===== src/Memory.antt =====
-- internal/adapters/outbound/memory, as cmd/pathmgmt wires it when DATABASE_URL is not set: the
-- repositories are maps of pointers, so what a use case assigns to the object that it found is in
-- the map at once; there is no unit of work. A map of pointers whose objects are reached only
-- through the map, or before they are in it, is a map of values with `assigned` writing to it.
-- Each Go map is walked in an order that is not specified; here it is the order of the list. The
-- publisher is any that is wired in: `broken` says for each publication to come whether it fails.
pub mod Laws
pub mod Requests
pub mod Listing
pub mod Orders
use process_path_management.Prelude.{
  ℕ, ◌+◌, String, Bool, true, false, List, [], ◌∷◌, ◌++◌, map, Option, none, some, if◌then◌else◌,
}
use process_path_management.Prelude.Assoc.{lookup, insert}
use process_path_management.Errors.{Result, ok, err, other}
use process_path_management.Events.{DomainEvent}
use process_path_management.Ports.{
  ProcessPathRepo, CptScheduleRepo, EventPublisher, Clock, PathMetrics,
}
use process_path_management.Shared.{PathId, SiteId}
use process_path_management.ProcessPath.{ProcessPath, is_active}
use process_path_management.CptSchedule.{CptSchedule}
use process_path_management.UseCases.{DefinePath, RevisePath, DeactivatePath}
use process_path_management.UseCases.Schedules.{DefineCptSchedule}

pub record World : Type 0 where
  pub paths : List (PathId × ProcessPath)
  pub schedules : List (SiteId × CptSchedule)
  pub published : List DomainEvent
  pub accepted : ℕ
  pub rejected : ℕ
  pub time : ℕ
  pub broken : List Bool

unfoldable pub save : ProcessPath → World → Result (Unit {0}) × World
save p w = (ok tt, record w { paths = insert p.id p w.paths })

unfoldable pub find_by_id : PathId → World → Result (Option ProcessPath)
find_by_id id w = ok (lookup id w.paths)

abbrev pub values {ℓ} : {A B : Type ℓ} → List (A × B) → List B
values [] = []
values ((_, b) ∷ m) = b ∷ values m

abbrev pub actives : List ProcessPath → List ProcessPath
actives [] = []
actives (p ∷ ps) = if is_active p then p ∷ actives ps else actives ps

unfoldable pub list_active : World → Result (List ProcessPath)
list_active w = ok (actives (values w.paths))

unfoldable pub list_all : World → Result (List ProcessPath)
list_all w = ok (values w.paths)

abbrev pub process_path_repo : ProcessPathRepo World
process_path_repo = record {
  save = save;
  find_by_id = find_by_id;
  list_active = list_active;
  list_all = list_all;
  assigned = λ p w. record w { paths = insert p.id p w.paths };
}

unfoldable pub save_schedule : CptSchedule → World → Result (Unit {0}) × World
save_schedule s w = (ok tt, record w { schedules = insert s.site_id s w.schedules })

unfoldable pub find_by_site_id : SiteId → World → Result (Option CptSchedule)
find_by_site_id site w = ok (lookup site w.schedules)

abbrev pub cpt_schedule_repo : CptScheduleRepo World
cpt_schedule_repo = record {
  save = save_schedule;
  find_by_site_id = find_by_site_id;
  assigned = λ s w. record w { schedules = insert s.site_id s w.schedules };
}

-- The publication that comes next fails, or it is the next event of the topic.
abbrev pub publish_with : List Bool → DomainEvent → World → Result (Unit {0}) × World
publish_with [] e w = (ok tt, record w { published = w.published ++ e ∷ [] })
publish_with (false ∷ rest) e w =
    (ok tt, record w { published = w.published ++ e ∷ []; broken = rest })
publish_with (true ∷ rest) e w = (err (other "publish failed"), record w { broken = rest })

abbrev pub publisher : EventPublisher World
publisher = record { publish = λ e w. publish_with w.broken e w }

abbrev pub clock : Clock World
clock = record { now = λ w. w.time }

abbrev pub path_metrics : PathMetrics World
path_metrics = record {
  path_definition_accepted = λ w. record w { accepted = w.accepted + 1 };
  path_definition_rejected = λ w. record w { rejected = w.rejected + 1 };
}

abbrev pub define_wired : DefinePath World
define_wired = record {
  repo = process_path_repo;
  publisher = publisher;
  clock = clock;
  unit_of_work = none;
  metrics = some path_metrics;
}

abbrev pub revise_wired : RevisePath World
revise_wired = record {
  repo = process_path_repo;
  publisher = publisher;
  clock = clock;
  unit_of_work = none;
}

abbrev pub deactivate_wired : DeactivatePath World
deactivate_wired = record {
  repo = process_path_repo;
  publisher = publisher;
  clock = clock;
  unit_of_work = none;
}

abbrev pub schedule_wired : DefineCptSchedule World
schedule_wired = record {
  repo = cpt_schedule_repo;
  process_path_repo = process_path_repo;
  publisher = publisher;
  clock = clock;
  unit_of_work = none;
}
