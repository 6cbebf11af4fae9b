-- ===== src/Analytics/Window.antt =====
-- The windows of Query and the day buckets (analyticsstore/memory_store.go).
use process_path_management.Prelude.{ℕ, ◌+◌, ◌*◌, ◌≤◌, ◌<◌, ◌/◌, ◌≡◌, List, [], ◌∷◌, arith}
use process_path_management.Analytics.{Row, MemoryStore, day, day_bucket, select, query}
use process_path_management.Analytics.Totals.{total}

total-select :
    (a b c : ℕ) (rows : List (ℕ × Row))
    → a ≤ b
    → b ≤ c
    → total (select a c rows) ≡ total (select a b rows) + total (select b c rows)
unfolding select
total-select a b c [] p q = omega arith
total-select a b c ((k, r) ∷ rows) p q = ground (arith, total-select a b c rows p q)

-- Two adjacent windows count what the window over both counts: no event at the common end is
-- counted twice or lost.
pub total-query :
    (a b c : ℕ) (s : MemoryStore)
    → a ≤ b
    → b ≤ c
    → total (query a c s) ≡ total (query a b s) + total (query b c s)
unfolding query
total-query a b c s p q = total-select a b c s.rows p q

-- A bucket is the last midnight at or before the time.
pub day_bucket_bounds :
    (t : ℕ) → (day_bucket t ≡ t / day * day) × (day_bucket t ≤ t) × (t < day_bucket t + day)
unfolding day_bucket
day_bucket_bounds t = omega arith
