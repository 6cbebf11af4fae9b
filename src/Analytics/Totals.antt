-- ===== src/Analytics/Totals.antt =====
-- The counters of the in-memory projection (analyticsstore/memory_store.go) against its event ids.
use process_path_management.Prelude.{
  Distinct, ℕ, ◌+◌, String, ◌≡◌, refl, List, [], ◌∷◌, arith, elem, elem_iff, In, length, Bool-cases,
  inl, inr, ◌↔◌, ◌⊎◌, subst,
}
use process_path_management.Analytics.{
  Row, MemoryStore, empty_row, new_memory_store, day_bucket, at_bucket, mutate, apply_created,
  apply_updated, apply_deactivated,
}

abbrev pub row_total : Row → ℕ
row_total r = r.paths_defined + r.paths_revised + r.paths_deactivated

abbrev pub total : List (ℕ × Row) → ℕ
total [] = 0
total ((_, r) ∷ rows) = row_total r + total rows

-- The three events of the projection.
pub data Kind : Type 0 where
  created updated deactivated : Kind

pub record Event : Type 0 where
  pub id : String
  pub kind : Kind
  pub at : ℕ

abbrev pub apply_kind : Kind → String → ℕ → MemoryStore → MemoryStore
apply_kind created = apply_created
apply_kind updated = apply_updated
apply_kind deactivated = apply_deactivated

unfoldable pub apply_all : List Event → MemoryStore → MemoryStore
apply_all [] s = s
apply_all (e ∷ es) s = apply_all es (apply_kind e.kind e.id e.at s)

pub record IsCounted (s : MemoryStore) : Type 0 where
  pub once : Distinct s.seen
  pub counted : total s.rows ≡ length s.seen

abbrev CountsOne : (Row → Row) → Type 0
CountsOne f = (r : Row) → row_total (f r) ≡ row_total r + 1

total-at_bucket :
    (k : ℕ) (f : Row → Row) (rows : List (ℕ × Row))
    → CountsOne f
    → total (at_bucket k f rows) ≡ total rows + 1
unfolding at_bucket
total-at_bucket k f [] h = omega (arith, h empty_row)
total-at_bucket k f ((j, r) ∷ rows) h = ground (arith, h r, total-at_bucket k f rows h)

mutate-IsCounted :
    (id : String) (at : ℕ) (f : Row → Row) (s : MemoryStore)
    → CountsOne f
    → IsCounted s
    → IsCounted (mutate id at f s)
unfolding mutate
mutate-IsCounted id at f s h c =
    ground (arith, elem_iff id s.seen, total-at_bucket (day_bucket at) f s.rows h)

pub apply_kind-IsCounted :
    (k : Kind) (id : String) (at : ℕ) (s : MemoryStore)
    → IsCounted s
    → IsCounted (apply_kind k id at s)
unfolding apply_created apply_updated apply_deactivated
apply_kind-IsCounted created id at s c = mutate-IsCounted id at _ s (λ r. omega arith) c
apply_kind-IsCounted updated id at s c = mutate-IsCounted id at _ s (λ r. omega arith) c
apply_kind-IsCounted deactivated id at s c = mutate-IsCounted id at _ s (λ r. omega arith) c

-- From a store that keeps every event id once and whose counters of all days together are the
-- number of the ids, whatever events arrive, in any order and however often, leave such a store.
pub apply_all-IsCounted :
    (es : List Event) (s : MemoryStore) → IsCounted s → IsCounted (apply_all es s)
unfolding apply_all
apply_all-IsCounted [] s c = c
apply_all-IsCounted (e ∷ es) s c =
    apply_all-IsCounted es (apply_kind e.kind e.id e.at s)
      (apply_kind-IsCounted e.kind e.id e.at s c)

abbrev pub ids : List Event → List String
ids [] = []
ids (e ∷ es) = e.id ∷ ids es

seen-mutate :
    (id : String) (at : ℕ) (f : Row → Row) (s : MemoryStore) (a : String)
    → In a (mutate id at f s).seen ↔ ((id ≡ a) ⊎ In a s.seen)
unfolding mutate
seen-mutate id at f s a = elim (Bool-cases (elem id s.seen)) [
  | inl old ↦
      rw (old, mutate)
        (
          (λ h. inr h),
          λ t. elim t [
            | inl e ↦ subst (λ b. In b s.seen) e ((elem_iff id s.seen).0 old)
            | inr h ↦ h
          ],
        )
  | inr new ↦ ground arith
]

pub seen-apply_kind :
    (k : Kind) (id : String) (at : ℕ) (s : MemoryStore) (a : String)
    → In a (apply_kind k id at s).seen ↔ ((id ≡ a) ⊎ In a s.seen)
unfolding apply_created apply_updated apply_deactivated
seen-apply_kind created id at s a = seen-mutate id at _ s a
seen-apply_kind updated id at s a = seen-mutate id at _ s a
seen-apply_kind deactivated id at s a = seen-mutate id at _ s a

seen-apply_all :
    (es : List Event) (s : MemoryStore) (a : String)
    → In a (apply_all es s).seen ↔ (In a (ids es) ⊎ In a s.seen)
unfolding apply_all
seen-apply_all [] s a = ground arith
seen-apply_all (e ∷ es) s a = ground (
  arith,
  seen-apply_all es (apply_kind e.kind e.id e.at s) a,
  seen-apply_kind e.kind e.id e.at s a,
)

-- Whatever events arrive at a new store, in any order and however often each is delivered, the ids
-- that it keeps are those of the events, each once, and the counters of all days together are
-- their number.
apply_all-once :
    (es : List Event)
    → ((a : String) → In a (apply_all es new_memory_store).seen ↔ In a (ids es))
      × Distinct (apply_all es new_memory_store).seen
      × (total (apply_all es new_memory_store).rows ≡ length (apply_all es new_memory_store).seen)
apply_all-once es =
    let c = apply_all-IsCounted es new_memory_store (record { once = tt; counted = refl }) in
    (λ a. ground (arith, seen-apply_all es new_memory_store a), c.once, c.counted)
