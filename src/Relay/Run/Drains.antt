-- ===== src/Relay/Run/Drains.antt =====
-- What one pass of outbox_relay.go publishes where nothing fails, and how many rows it leaves.
use process_path_management.Prelude.{
  ℕ, ◌+◌, ◌≤◌, ◌<◌, zero, suc, Bool, true, false, ◌&&◌, ◌||◌, not, ◌≡◌, refl, ap, ◌∙◌, List, [],
  ◌∷◌, nat_eq, if◌then◌else◌, length, arith,
}
use process_path_management.Errors.{ok}
use process_path_management.Transaction.{Session, exec, begin, commit, rollback}
use process_path_management.Kafka.{Encoded}
use process_path_management.Postgres.Session.{Tables, OutboxRow}
use process_path_management.Relay.{
  Sink, Pass, by_id, pending, limit, update_row, published_row, mark_published, claim, relay_rows,
  relay_once,
}

-- how many rows are not published
abbrev pub unpublished : List OutboxRow → ℕ
unpublished [] = 0
unpublished (r ∷ rs) = if r.published then unpublished rs else suc (unpublished rs)

-- is there a row with this id that is not published
abbrev pub waits_for : ℕ → List OutboxRow → Bool
waits_for i [] = false
waits_for i (r ∷ rs) = (nat_eq r.id i && not r.published) || waits_for i rs

abbrev pub has_id : ℕ → List OutboxRow → Bool
has_id i [] = false
has_id i (r ∷ rs) = nat_eq r.id i || has_id i rs

abbrev pub mark_all : List OutboxRow → List OutboxRow → List OutboxRow
mark_all [] rows = rows
mark_all (b ∷ batch) rows = mark_all batch (update_row b.id published_row rows)

has_id-by_id :
    (i : ℕ) (row : OutboxRow) (rows : List OutboxRow)
    → has_id i (by_id row rows) ≡ (nat_eq row.id i || has_id i rows)
unfolding by_id
has_id-by_id i row [] = refl
has_id-by_id i row (r ∷ rs) = ground (arith, has_id-by_id i row rs)

pub has_id-pending : (i : ℕ) (rows : List OutboxRow) → has_id i (pending rows) ≡ waits_for i rows
unfolding pending
has_id-pending i [] = refl
has_id-pending i (r ∷ rs) = ground (arith, has_id-by_id i r (pending rs), has_id-pending i rs)

waits_for-update_row :
    (i j : ℕ) (rows : List OutboxRow)
    → waits_for i (update_row j published_row rows) ≡ (waits_for i rows && not (nat_eq i j))
waits_for-update_row i j [] = refl
waits_for-update_row i j (r ∷ rs) = ground (arith, waits_for-update_row i j rs)

unpublished-update_row :
    (j : ℕ) (rows : List OutboxRow)
    → unpublished (update_row j published_row rows) ≤ unpublished rows
unpublished-update_row j [] = omega arith
unpublished-update_row j (r ∷ rs) = ground (arith, unpublished-update_row j rs)

unpublished-less :
    (j : ℕ) (rows : List OutboxRow)
    → waits_for j rows ≡ true
    → unpublished (update_row j published_row rows) < unpublished rows
unpublished-less j [] h = absurd (ground arith)
unpublished-less j (r ∷ rs) h = ground (arith, unpublished-less j rs, unpublished-update_row j rs)

unpublished-mark_all :
    (batch rows : List OutboxRow) → unpublished (mark_all batch rows) ≤ unpublished rows
unpublished-mark_all [] rows = omega arith
unpublished-mark_all (b ∷ batch) rows =
    let first = unpublished-update_row b.id rows in
    let later = unpublished-mark_all batch (update_row b.id published_row rows) in omega arith

all_waiting : (rows : List OutboxRow) → ((i : ℕ) → waits_for i rows ≡ false) → unpublished rows ≡ 0
all_waiting [] h = refl
all_waiting (r ∷ rs) h = ground (arith, h r.id, all_waiting rs (λ i. ground (arith, h i)))

unpublished-covered :
    (batch rows : List OutboxRow)
    → ((i : ℕ) → waits_for i rows ≡ true → has_id i batch ≡ true)
    → unpublished (mark_all batch rows) ≡ 0
unpublished-covered [] rows h = all_waiting rows (λ i. ground (arith, h i))
unpublished-covered (b ∷ batch) rows h =
    unpublished-covered batch (update_row b.id published_row rows)
      (λ i w. ground (arith, waits_for-update_row i b.id rows, h i))

pub limit-short : (n : ℕ) (rows : List OutboxRow) → length (limit n rows) < n → limit n rows ≡ rows
limit-short zero rows h = absurd (omega arith)
limit-short (suc n) [] h = refl
limit-short (suc n) (r ∷ rows) h = ap (λ rest. r ∷ rest) (limit-short n rows (omega arith))

pub length-limit : (n : ℕ) (rows : List OutboxRow) → length (limit n rows) ≤ n
length-limit zero rows = omega arith
length-limit (suc n) [] = omega arith
length-limit (suc n) (r ∷ rows) = let rest = length-limit n rows in omega arith

-- a batch that is not full has every row that is not published
pub short_batch :
    (n : ℕ) (rows : List OutboxRow)
    → length (limit n (pending rows)) < n
    → unpublished (mark_all (limit n (pending rows)) rows) ≡ 0
short_batch n rows h =
    unpublished-covered (limit n (pending rows)) rows
      (λ i w. ap (has_id i) (limit-short n (pending rows) h) ∙ has_id-pending i rows ∙ w)

-- a batch that is not empty leaves fewer
pub full_batch :
    (n : ℕ) (waiting rows : List OutboxRow)
    → ((i : ℕ) → has_id i waiting ≡ waits_for i rows)
    → length (limit (suc n) waiting) ≡ suc n
    → unpublished (mark_all (limit (suc n) waiting) rows) < unpublished rows
full_batch n [] rows same full = absurd (omega arith)
full_batch n (b ∷ bs) rows same full =
    let found = same b.id in
    let first = unpublished-less b.id rows (ground arith) in
    let later = unpublished-mark_all (limit n bs) (update_row b.id published_row rows) in
    omega arith

module _ {R K : Type 0} (sink : Sink K)
    (takes : (e : Encoded) (k : K) → (sink.send e k).0 ≡ ok tt) where
  -- what a pass leaves where the sink takes every row of its batch and no statement fails
  abbrev pub Publishes : List OutboxRow → ℕ → Session (Tables R) → Pass R K → Type 0
  Publishes rows published s pass =
      (pass.0.0 ≡ published + length rows)
      × (pass.0.1 ≡ ok tt)
      × (pass.1.0.tables.outbox ≡ mark_all rows s.tables.outbox)
      × (pass.1.0.faults ≡ [])

  relay_rows-Publishes :
      (rows : List OutboxRow) (published : ℕ) (s : Session (Tables R)) (k : K)
      → s.faults ≡ []
      → s.aborted ≡ false
      → Publishes rows published s (relay_rows sink rows published s k)
  unfolding relay_rows exec commit rollback
  relay_rows-Publishes [] published s k calm live = ground arith
  relay_rows-Publishes (row ∷ rows) published s k calm live =
      let marking = (exec (mark_published row) s).1 in
      let later = relay_rows-Publishes rows (published + 1) marking (sink.send row.encoded k).1 in
      let taken = takes row.encoded k in ground arith

  pub relay_once-Publishes :
      (n : ℕ) (s : Session (Tables R)) (k : K)
      → s.faults ≡ []
      → Publishes (limit n (pending s.tables.outbox)) 0 s (relay_once sink n s k)
  unfolding relay_once begin exec rollback
  relay_once-Publishes n s k calm =
      let opened = (begin s).1 in
      let claimed = (exec (claim n) opened).1 in
      let looped = relay_rows-Publishes (limit n (pending s.tables.outbox)) 0 claimed k in
      ground arith
