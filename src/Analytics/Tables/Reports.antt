-- ===== src/Analytics/Tables/Reports.antt =====
-- postgres_report.go against the queries of memory_store.go.
use process_path_management.Prelude.{
  ℕ, ◌≤◌, ◌+◌, ◌≡◌, refl, Bool, ◌&&◌, ltb, if◌then◌else◌, ◌⊎◌, List, [], ◌∷◌, leb, arith, inl, inr,
  Bool-cases, All, Option-cases,
}
use process_path_management.Errors.{Error, ok, err}
use process_path_management.Shared.Platform.{Platform}
use process_path_management.Transaction.{read}
use process_path_management.Analytics
use process_path_management.Analytics.{Row, MemoryStore, select}
use process_path_management.Analytics.Tables.{
  place_bucket, by_bucket, where_bucket, max_occurred, Store, query, freshness_lag,
}
use process_path_management.Analytics.Tables.Refines.{Represents}

-- No row comes before one of an earlier day.
abbrev pub IsAscending : List (ℕ × Row) → Type 0
IsAscending [] = Unit
IsAscending (r ∷ rs) = All (λ (q : ℕ × Row). r.0 ≤ q.0) rs × IsAscending rs

after-All :
    (a b : ℕ) (rs : List (ℕ × Row))
    → a ≤ b
    → All (λ (q : ℕ × Row). b ≤ q.0) rs
    → All (λ (q : ℕ × Row). a ≤ q.0) rs
after-All a b [] h all = tt
after-All a b (r ∷ rs) h all = (omega (arith, all.0), after-All a b rs h all.1)

after-place_bucket :
    (a : ℕ) (row : ℕ × Row) (rs : List (ℕ × Row))
    → a ≤ row.0
    → All (λ (q : ℕ × Row). a ≤ q.0) rs
    → All (λ (q : ℕ × Row). a ≤ q.0) (place_bucket row rs)
unfolding place_bucket
after-place_bucket a row [] h all = (h, tt)
after-place_bucket a row (r ∷ rs) h all = elim (Bool-cases (leb row.0 r.0)) [
  | inl first ↦ rw first (h, all)
  | inr later ↦ rw later (all.0, after-place_bucket a row rs h all.1)
]

place_bucket-IsAscending :
    (row : ℕ × Row) (rs : List (ℕ × Row)) → IsAscending rs → IsAscending (place_bucket row rs)
unfolding place_bucket
place_bucket-IsAscending row [] up = (tt, tt)
place_bucket-IsAscending row (r ∷ rs) up = elim (Bool-cases (leb row.0 r.0)) [
  | inl first ↦ rw first ((ground arith, after-All row.0 r.0 rs (ground arith) up.0), up)
  | inr later ↦
      rw later
        (after-place_bucket r.0 row rs (ground arith) up.0, place_bucket-IsAscending row rs up.1)
]

pub by_bucket-IsAscending : (rows : List (ℕ × Row)) → IsAscending (by_bucket rows)
unfolding by_bucket
by_bucket-IsAscending [] = tt
by_bucket-IsAscending (r ∷ rs) =
    place_bucket-IsAscending r (by_bucket rs) (by_bucket-IsAscending rs)

where_bucket-select :
    (from to : ℕ) (rows : List (ℕ × Row)) → where_bucket from to rows ≡ select from to rows
unfolding where_bucket select
where_bucket-select from to [] = refl
where_bucket-select from to ((k, r) ∷ rows) = ground (arith, where_bucket-select from to rows)

-- how many rows pass a test
unfoldable pub count : (ℕ × Row → Bool) → List (ℕ × Row) → ℕ
count p [] = 0
count p (row ∷ rows) = (if p row then 1 else 0) + count p rows

-- the rows of a window that pass a test
abbrev pub within : ℕ → ℕ → (ℕ × Row → Bool) → ℕ × Row → Bool
within from to p row = p row && (leb from row.0 && ltb row.0 to)

count-place_bucket :
    (p : ℕ × Row → Bool) (row : ℕ × Row) (rows : List (ℕ × Row))
    → count p (place_bucket row rows) ≡ (if p row then 1 else 0) + count p rows
unfolding count place_bucket
count-place_bucket p row [] = refl
count-place_bucket p row (r ∷ rows) = elim (Bool-cases (leb row.0 r.0)) [
  | inl first ↦ rw first refl
  | inr later ↦ rw later (rw (count-place_bucket p row rows) (omega arith))
]

pub count-by_bucket :
    (p : ℕ × Row → Bool) (rows : List (ℕ × Row)) → count p (by_bucket rows) ≡ count p rows
unfolding count by_bucket
count-by_bucket p [] = refl
count-by_bucket p (row ∷ rows) =
    rw (count-place_bucket p row (by_bucket rows)) (rw (count-by_bucket p rows) refl)

pub count-select :
    (from to : ℕ) (p : ℕ × Row → Bool) (rows : List (ℕ × Row))
    → count p (select from to rows) ≡ count (within from to p) rows
unfolding count select
count-select from to p [] = refl
count-select from to p ((k, r) ∷ rows) =
    let rest = count-select from to p rows in
    elim (Bool-cases (leb from k)) [
      | inl after ↦ elim (Bool-cases (ltb k to)) [
        | inl before ↦ elim (Bool-cases (p (k, r))) [
          | inl passed ↦ ground arith
          | inr not_passed ↦ ground arith
        ]
        | inr beyond ↦ elim (Bool-cases (p (k, r))) [
          | inl passed ↦ ground arith
          | inr not_passed ↦ ground arith
        ]
      ]
      | inr early ↦ elim (Bool-cases (p (k, r))) [
        | inl passed ↦ ground arith
        | inr not_passed ↦ ground arith
      ]
    ]

module _ (pf : Platform) where
  -- Over tables that hold what a store in memory holds, for a window whose ends a time column
  -- keeps, a report query fails or returns the rows that the store in memory returns, with no row
  -- before one of an earlier day; and the freshness query fails or returns the lag of the latest
  -- time as its column keeps it.
  pub query-Represents :
      (from to now : ℕ) (m : MemoryStore) (s : Store)
      → Represents pf m s.tables
      → pf.stored_time from ≡ from
      → pf.stored_time to ≡ to
      → (((e : Error) × (query pf from to s ≡ err e))
          ⊎ ((query pf from to s ≡ ok (by_bucket (Analytics.query from to m)))
              × IsAscending (by_bucket (Analytics.query from to m))))
        × (((e : Error) × (freshness_lag now s ≡ err e))
            ⊎ (freshness_lag now s
                ≡ ok (Analytics.freshness_lag now (record m { latest = pf.stored_time m.latest }))))
  unfolding query freshness_lag Analytics.query Analytics.freshness_lag read
  query-Represents from to now m s same from_kept to_kept =
      let rows = same.same_rows in
      let latest = same.same_latest in
      let filtered = where_bucket-select from to m.rows in
      let up = by_bucket-IsAscending (Analytics.query from to m) in
      (ground arith, ground (arith, Option-cases (max_occurred s.tables.processed)))
