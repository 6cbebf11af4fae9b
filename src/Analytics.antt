-- ===== src/Analytics.antt =====
-- internal/analytics/report/catalogue.go and internal/adapters/outbound/analyticsstore/memory_store.go:
-- the catalogue-growth rollup. The maps are association lists; a time is nanoseconds since the zero
-- Time, so a day bucket is a multiple of a day.
pub mod Totals
pub mod Window
pub mod Tables
use process_path_management.Prelude.{
  ℕ, ◌+◌, ◌-◌, ◌*◌, ◌%◌, String, Bool, true, false, not, ◌||◌, List, [], ◌∷◌, Option, none, some,
  elem, ltb, nat_eq, if◌then◌else◌,
}

-- 24 * time.Hour
abbrev pub day : ℕ
day = 86400000000000

unfoldable pub day_bucket : ℕ → ℕ
day_bucket t = t - t % day

pub record Row : Type 0 where
  pub paths_defined : ℕ
  pub paths_revised : ℕ
  pub paths_deactivated : ℕ

abbrev pub empty_row : Row
empty_row = record { paths_defined = 0; paths_revised = 0; paths_deactivated = 0 }

pub record MemoryStore : Type 0 where
  pub seen : List String
  pub rows : List (ℕ × Row)
  pub latest : ℕ

abbrev pub new_memory_store : MemoryStore
new_memory_store = record { seen = []; rows = []; latest = 0 }

-- `row` and the call of `fn` on it: the row of the bucket, created empty if it is not there
unfoldable pub at_bucket : ℕ → (Row → Row) → List (ℕ × Row) → List (ℕ × Row)
at_bucket k f [] = (k, f empty_row) ∷ []
at_bucket k f ((j, r) ∷ rows) = if nat_eq j k then (j, f r) ∷ rows else (j, r) ∷ at_bucket k f rows

abbrev pub first_apply : String → ℕ → MemoryStore → Bool × MemoryStore
first_apply event_id at s = if elem event_id s.seen then (false, s) else (
  true,
  record s { seen = event_id ∷ s.seen; latest = if ltb s.latest at then at else s.latest },
)

abbrev pub on_first : ℕ → (Row → Row) → Bool × MemoryStore → MemoryStore
on_first at f (false, s) = s
on_first at f (true, s) = record s { rows = at_bucket (day_bucket at) f s.rows }

unfoldable pub mutate : String → ℕ → (Row → Row) → MemoryStore → MemoryStore
mutate event_id at f s = on_first at f (first_apply event_id at s)

unfoldable pub apply_created : String → ℕ → MemoryStore → MemoryStore
apply_created event_id at =
    mutate event_id at (λ r. record r { paths_defined = r.paths_defined + 1 })

unfoldable pub apply_updated : String → ℕ → MemoryStore → MemoryStore
apply_updated event_id at =
    mutate event_id at (λ r. record r { paths_revised = r.paths_revised + 1 })

unfoldable pub apply_deactivated : String → ℕ → MemoryStore → MemoryStore
apply_deactivated event_id at =
    mutate event_id at (λ r. record r { paths_deactivated = r.paths_deactivated + 1 })

-- the loop of Query over the rows, for the window from `from` up to but not including `to`
unfoldable pub select : ℕ → ℕ → List (ℕ × Row) → List (ℕ × Row)
select from to [] = []
select from to ((k, r) ∷ rows) =
    let rest = select from to rows in if ltb k from || not (ltb k to) then rest else (k, r) ∷ rest

unfoldable pub query : ℕ → ℕ → MemoryStore → List (ℕ × Row)
query from to s = select from to s.rows

-- `now` is the clock's reading; a lag below zero is reported as zero
unfoldable pub freshness_lag : ℕ → MemoryStore → ℕ
freshness_lag now s =
    if nat_eq s.latest 0 then 0 else if ltb now s.latest then 0 else now - s.latest
