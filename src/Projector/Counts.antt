-- ===== src/Projector/Counts.antt =====
-- The loop Run of analytics_consumer.go over the report tables.
use process_path_management.Prelude.{String, true, ◌≡◌, ◌⊎◌, refl, List, [], ◌∷◌, ◌++◌, inl, inr}
use process_path_management.Errors.{Result, ok, err}
use process_path_management.Shared.Platform.{Platform}
use process_path_management.Analytics.Tables.{Store}
use process_path_management.Analytics.Tables.Refines.{IsTimeColumn}
use process_path_management.Projector.{
  AnalyticsEvent, Message, Outside, is_projecting_event_type, handle_fetched_message,
}
use process_path_management.Projector.Wired.{Clients, IsBoundedRetry, projector, after_message, run}
use process_path_management.Projector.Once.{IsOnce, handle_fetched_message-IsOnce}

module _ {B : Type 0} (pf : Platform) (c : Clients B) where
  -- The id is that of a projecting event that one of the messages holds.
  abbrev pub Delivered : List Message → String → Type 0
  Delivered [] a = ⊥
  Delivered (m ∷ ms) a =
      ((e : AnalyticsEvent) × (c.decode m.value ≡ ok e)
        × (is_projecting_event_type e.type_name ≡ true)
        × (e.id ≡ a))
      ⊎ Delivered ms a

  Delivered-before : (xs ys : List Message) (a : String) → Delivered xs a → Delivered (xs ++ ys) a
  Delivered-before [] ys a d = absurd d
  Delivered-before (x ∷ xs) ys a (inl now) = inl now
  Delivered-before (x ∷ xs) ys a (inr d) = inr (Delivered-before xs ys a d)

  Delivered-after : (xs ys : List Message) (a : String) → Delivered ys a → Delivered (xs ++ ys) a
  Delivered-after [] ys a d = d
  Delivered-after (x ∷ xs) ys a d = inr (Delivered-after xs ys a d)

  widened :
      (D E : String → Type 0) (s : Store)
      → ((a : String) → D a → E a)
      → IsOnce pf c D s
      → IsOnce pf c E s
  widened D E s wider once = record {
    closed = once.closed;
    memory = once.memory;
    counted = once.counted;
    held = once.held;
    delivered = λ a i. wider a (once.delivered a i);
  }

  module _ (column : IsTimeColumn pf) (bounded : IsBoundedRetry c) where
    abbrev o : Outside (Store × B)
    o = projector pf c

    after_message-IsOnce :
        (D : String → Type 0) (r : Result (Unit {0}) × (Store × B))
        (next : Store × B → Result (Unit {0}) × (Store × B))
        → ((s : Store × B) → IsOnce pf c D s.0 → IsOnce pf c D (next s).1.0)
        → IsOnce pf c D r.1.0
        → IsOnce pf c D (after_message o r next).1.0
    after_message-IsOnce D (ok _, s) next keeps once = keeps s once
    after_message-IsOnce D (err e, s) next keeps once = once

    run-keeps :
        (D : String → Type 0) (ms : List Message) (ended : Result (Unit {0})) (s : Store × B)
        → ((a : String) → Delivered ms a → D a)
        → IsOnce pf c D s.0
        → IsOnce pf c D (run o ms ended s).1.0
    unfolding run
    run-keeps D [] ended s wider once = once
    run-keeps D (m ∷ ms) ended s wider once =
        after_message-IsOnce D (handle_fetched_message o m s) (run o ms ended)
          (λ t kept. run-keeps D ms ended t (λ a d. wider a (inr d)) kept)
          (handle_fetched_message-IsOnce pf c D column bounded m s
            (λ e decoded counts. wider e.id (inl (e, decoded, counts, refl))) once)

    -- With a retry that keeps its bound and time columns that keep the order of times and whole
    -- days: from tables whose counters count each id of some delivered events once, a run of the
    -- projector over any further messages, repeated or not, whatever statements, retries, commits
    -- and dead-letter writes fail, leaves tables whose counters count each id of some of the
    -- events delivered by then once.
    pub run-IsOnce :
        (before ms : List Message) (ended : Result (Unit {0})) (s : Store × B)
        → IsOnce pf c (Delivered before) s.0
        → IsOnce pf c (Delivered (before ++ ms)) (run o ms ended s).1.0
    run-IsOnce before ms ended s once =
        run-keeps (Delivered (before ++ ms)) ms ended s (Delivered-after before ms) (
          widened (Delivered before) (Delivered (before ++ ms)) s.0 (Delivered-before before ms)
            once)
