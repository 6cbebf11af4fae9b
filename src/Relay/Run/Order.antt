-- ===== src/Relay/Run/Order.antt =====
-- The rows that wait in the outbox, by their ids: the ids are unique, as the table's key.
use process_path_management.Prelude.{
  ℕ, ◌≤◌, zero, suc, false, ◌≡◌, refl, ap, ◌∙◌, List, [], ◌∷◌, nat_eq, leb, if◌then◌else◌, arith,
  Bool-cases, inl, inr, subst,
}
use process_path_management.Postgres.Session.{OutboxRow}
use process_path_management.Relay.{by_id, pending, limit, update_row, published_row}
use process_path_management.Relay.Run.Drains.{has_id, waits_for, mark_all, has_id-pending}

-- the primary key
abbrev pub Unique : List OutboxRow → Type 0
Unique [] = Unit {0}
Unique (r ∷ rs) = (has_id r.id rs ≡ false) × Unique rs

-- ids that ascend from i
abbrev From : ℕ → List OutboxRow → Type 0
From i [] = Unit {0}
From i (r ∷ rs) = (i ≤ r.id) × From (suc r.id) rs

abbrev remove : ℕ → List OutboxRow → List OutboxRow
remove i [] = []
remove i (r ∷ rs) = if nat_eq r.id i then remove i rs else r ∷ remove i rs

abbrev pub drop : ℕ → List OutboxRow → List OutboxRow
drop zero rows = rows
drop (suc n) [] = []
drop (suc n) (r ∷ rows) = drop n rows

From-by_id :
    (i : ℕ) (r : OutboxRow) (rows : List OutboxRow)
    → i ≤ r.id
    → has_id r.id rows ≡ false
    → From i rows
    → From i (by_id r rows)
unfolding by_id
From-by_id i r [] low new from = (low, tt)
From-by_id i r (f ∷ rows) low new (first, from) = elim (Bool-cases (leb r.id f.id)) [
  | inl small ↦ let less : suc r.id ≤ f.id = ground arith in rw small (low, (less, from))
  | inr large ↦
      let more : suc f.id ≤ r.id = ground arith in
      rw large (first, From-by_id (suc f.id) r rows more (ground arith) from)
]

waits_for-has_id :
    (i : ℕ) (rows : List OutboxRow) → has_id i rows ≡ false → waits_for i rows ≡ false
waits_for-has_id i [] h = refl
waits_for-has_id i (r ∷ rows) h = ground (arith, waits_for-has_id i rows)

From-pending : (rows : List OutboxRow) → Unique rows → From 0 (pending rows)
unfolding pending
From-pending [] u = tt
From-pending (r ∷ rows) (new, u) = elim (Bool-cases r.published) [
  | inl done ↦
      let same : pending (r ∷ rows) ≡ pending rows = ground arith in rw same (From-pending rows u)
  | inr waits ↦
      let added : pending (r ∷ rows) ≡ by_id r (pending rows) = ground arith in
      rw added (
        From-by_id 0 r (pending rows) (omega arith)
          (has_id-pending r.id rows ∙ waits_for-has_id r.id rows new) (From-pending rows u))
]

From-weaken : (i j : ℕ) (rows : List OutboxRow) → j ≤ i → From i rows → From j rows
From-weaken i j [] less from = tt
From-weaken i j (r ∷ rows) less (first, from) = (omega arith, from)

From-remove : (i k : ℕ) (rows : List OutboxRow) → From i rows → From i (remove k rows)
From-remove i k [] from = tt
From-remove i k (r ∷ rows) (first, from) = elim (Bool-cases (nat_eq r.id k)) [
  | inl same ↦
      rw same (
        From-weaken (suc r.id) i (remove k rows) (omega arith) (From-remove (suc r.id) k rows from))
  | inr other ↦ rw other (first, From-remove (suc r.id) k rows from)
]

by_id-From : (r : OutboxRow) (rows : List OutboxRow) → From r.id rows → by_id r rows ≡ r ∷ rows
unfolding by_id
by_id-From r [] from = refl
by_id-From r (f ∷ rows) (first, from) = ground arith

remove-From : (i : ℕ) (rows : List OutboxRow) → From (suc i) rows → remove i rows ≡ rows
remove-From i [] from = refl
remove-From i (r ∷ rows) (first, from) =
    let later = remove-From i rows (From-weaken (suc r.id) (suc i) rows (omega arith) from) in
    ground arith

remove-by_id :
    (i j : ℕ) (r : OutboxRow) (rows : List OutboxRow)
    → From j rows
    → remove i (by_id r rows) ≡ (if nat_eq r.id i then remove i rows else by_id r (remove i rows))
unfolding by_id
remove-by_id i j r [] from = refl
remove-by_id i j r (f ∷ rows) (first, from) =
    let later = remove-by_id i (suc f.id) r rows from in
    let kept = From-remove (suc f.id) i rows from in
    elim (Bool-cases (leb r.id f.id)) [
      | inl small ↦
          let less : r.id ≤ suc f.id = ground arith in
          let lower =
            by_id-From r (remove i rows) (From-weaken (suc f.id) r.id (remove i rows) less kept) in
          ground arith
      | inr large ↦ ground arith
    ]

pending-update_row :
    (i : ℕ) (rows : List OutboxRow)
    → Unique rows
    → pending (update_row i published_row rows) ≡ remove i (pending rows)
unfolding pending
pending-update_row i [] u = refl
pending-update_row i (r ∷ rows) (new, u) =
    let later = pending-update_row i rows u in
    let moved = remove-by_id i 0 r (pending rows) (From-pending rows u) in ground arith

has_id-update_row :
    (i j : ℕ) (rows : List OutboxRow) → has_id i (update_row j published_row rows) ≡ has_id i rows
has_id-update_row i j [] = refl
has_id-update_row i j (r ∷ rows) = ground (arith, has_id-update_row i j rows)

update_row-Unique :
    (j : ℕ) (rows : List OutboxRow) → Unique rows → Unique (update_row j published_row rows)
update_row-Unique j [] u = tt
update_row-Unique j (r ∷ rows) (new, u) =
    (ground (arith, has_id-update_row r.id j rows), update_row-Unique j rows u)

pub mark_all-Unique : (batch rows : List OutboxRow) → Unique rows → Unique (mark_all batch rows)
mark_all-Unique [] rows u = u
mark_all-Unique (b ∷ batch) rows u =
    mark_all-Unique batch (update_row b.id published_row rows) (update_row-Unique b.id rows u)

left_waiting :
    (n : ℕ) (waiting rows : List OutboxRow)
    → pending rows ≡ waiting
    → Unique rows
    → pending (mark_all (limit n waiting) rows) ≡ drop n waiting
left_waiting zero waiting rows same u = same
left_waiting (suc n) [] rows same u = same
left_waiting (suc n) (b ∷ bs) rows same u =
    let from : From 0 (b ∷ bs) = subst (λ x. From 0 x) same (From-pending rows u) in
    let kept = remove-From b.id bs from.1 in
    let removed : remove b.id (b ∷ bs) ≡ bs = ground arith in
    left_waiting n bs (update_row b.id published_row rows)
      (pending-update_row b.id rows u ∙ ap (remove b.id) same ∙ removed)
      (update_row-Unique b.id rows u)

-- a pass leaves the rows that wait behind its batch
pub pending-mark_all :
    (n : ℕ) (rows : List OutboxRow)
    → Unique rows
    → pending (mark_all (limit n (pending rows)) rows) ≡ drop n (pending rows)
pending-mark_all n rows u = left_waiting n (pending rows) rows refl u
