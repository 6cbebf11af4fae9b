-- ===== src/Postgres/PathTrip.antt =====
-- Save and FindByID of process_path_repo.go, one after the other.
use process_path_management.Prelude.{
  ◌≡◌, ◌⊎◌, refl, sym, ap, List, ◌∙◌, ◌==◌, eq_iff, eq_refl, Option, none, some, Bool-cases, inl,
  inr, arith, if◌then◌else◌,
}
use process_path_management.Prelude.Assoc.{lookup, lookup-insert}
use process_path_management.Errors.{ok}
use process_path_management.Shared.{PathId}
use process_path_management.Shared.Platform.{Platform}
use process_path_management.ProcessPath.{ProcessPath}
use process_path_management.Transaction.{Session, exec, read}
use process_path_management.Postgres.Session.{Tables}
use process_path_management.Postgres.Rows.{
  PathRow, path_to_row, path_of_row, upsert_row, role_from_column, eligibility_to_domain,
  eligibility_to_row,
}
use process_path_management.Postgres.Repo.{upsert, scan, save, find_by_id}
use process_path_management.Postgres.RoundTrip.{stored, path_of_row-path_to_row}
use process_path_management.Postgres.ScheduleTrip.{IsCalm}

-- What a saved path is read back as: in the precision of its columns, and with the direct flag, the
-- destination role and the creation time of the row that its id had.
abbrev pub kept_over : Platform → ProcessPath → Option PathRow → ProcessPath
kept_over pf p none = stored pf p
kept_over pf p (some old) = record (stored pf p) {
  direct = old.direct;
  destination_location_role = role_from_column old.destination_location_role;
  created_at = old.created_at;
}

path_of_row-upsert_row :
    (pf : Platform) (p : ProcessPath) (old : Option PathRow)
    → ((row : PathRow) → old ≡ some row → row.id ≡ p.id)
    → path_of_row (upsert_row old (path_to_row pf p)) ≡ kept_over pf p old
unfolding upsert_row path_of_row path_to_row eligibility_to_domain eligibility_to_row
path_of_row-upsert_row pf p none own = path_of_row-path_to_row pf p
path_of_row-upsert_row pf p (some old) own = let same = own old refl in ground arith

lookup-upsert :
    (pf : Platform) (p : ProcessPath) (asked : PathId) (rows : List (PathId × PathRow))
    → lookup asked (upsert (path_to_row pf p) rows) ≡ (
        if p.id == asked
        then some (upsert_row (lookup p.id rows) (path_to_row pf p))
        else lookup asked rows)
unfolding path_to_row
lookup-upsert pf p asked rows =
    lookup-insert p.id asked (upsert_row (lookup p.id rows) (path_to_row pf p)) rows

module _ {R : Type 0} (pf : Platform) where
  -- every row stands under its own id
  abbrev pub OwnIds : Tables R → Type 0
  OwnIds t = (id : PathId) (row : PathRow) → lookup id t.paths ≡ some row → row.id ≡ id

  abbrev with_saved : ProcessPath → Session (Tables R) → Session (Tables R)
  with_saved p s = record s {
    tables = record s.tables { paths = upsert (path_to_row pf p) s.tables.paths };
  }

  save-calm :
      (p : ProcessPath) (s : Session (Tables R)) → IsCalm s → save pf p s ≡ (ok tt, with_saved p s)
  unfolding save exec
  save-calm p s calm = ground arith

  find_by_id-calm :
      (id : PathId) (s : Session (Tables R))
      → IsCalm s
      → find_by_id pf id s ≡ ok (scan (lookup id s.tables.paths))
  unfolding find_by_id read
  find_by_id-calm id s calm = ground arith

  -- In a calm session over rows that stand under their own ids, saving a path succeeds; a lookup of
  -- its id then returns it as its columns keep it, with the direct flag, the destination role and
  -- the creation time that its id had if it had a row; and a lookup of another id returns what it
  -- returned before.
  pub find_by_id-save :
      (p : ProcessPath) (s : Session (Tables R))
      → IsCalm s
      → OwnIds s.tables
      → let r = save pf p s in
        (r.0 ≡ ok tt)
        × (find_by_id pf p.id r.1 ≡ ok (some (kept_over pf p (lookup p.id s.tables.paths))))
        × ((other : PathId) → (other ≡ p.id) ⊎ (find_by_id pf other r.1 ≡ find_by_id pf other s))
  find_by_id-save p s calm own =
      let old = lookup p.id s.tables.paths in
      let after_calm : IsCalm (with_saved p s) = record {
        unaborted = calm.unaborted;
        faultless = calm.faultless;
      } in
      rw (save-calm p s calm) (
        refl,
        find_by_id-calm p.id (with_saved p s) after_calm
            ∙ (rw (lookup-upsert pf p p.id s.tables.paths, eq_refl p.id)
                (ap (λ q. ok (some q)) (path_of_row-upsert_row pf p old (own p.id)))),
        λ other. elim (Bool-cases (p.id == other)) [
          | inl same ↦ inl (sym ((eq_iff p.id other).0 same))
          | inr differ ↦ inr (
              find_by_id-calm other (with_saved p s) after_calm
              ∙ rw (lookup-upsert pf p other s.tables.paths, differ)
                  (sym (find_by_id-calm other s calm)))
        ],
      )
