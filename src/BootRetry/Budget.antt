-- ===== src/BootRetry/Budget.antt =====
-- The budget of bootretry/retry.go.
use process_path_management.Prelude.{
  ℕ, ◌+◌, ◌*◌, ◌≤◌, ◌<◌, suc, zero, String, ◌≡◌, ◌⊎◌, inl, inr, refl, arith, Option, none, some,
  Option-cases, subst, sym,
}
use process_path_management.Errors.{Error, Result, ok, err, Result-cases}
use process_path_management.BootRetry.{Boot, attempts, do_with_delay, exhausted, abandoned}

-- a process with a count of the calls of its operation and the sum of its waits, what the last of
-- the calls returned and what the last of the waits did
pub record Counted (S : Type 0) : Type 0 where
  pub process : S
  pub returned : Result (Unit {0})
  pub stopped : Option Error
  pub calls : ℕ
  pub waited : ℕ

-- the waits between n + 1 attempts
abbrev waits : ℕ → ℕ → ℕ
waits zero delay = 0
waits (suc n) delay = delay + waits n (delay * 2)

attempts-later :
    {T : Type 0} (b : Boot T) (what : String) (m delay : ℕ) (s : T) (e : Error)
    → (b.op s).0 ≡ err e
    → (b.wait delay (b.op s).1).0 ≡ none
    → attempts b what (suc (suc m)) delay s
      ≡ attempts b what (suc m) (delay * 2) (b.wait delay (b.op s).1).1
unfolding attempts
attempts-later b what m delay s e failed slept = ground arith

module _ {S : Type 0} where
  abbrev counted_op : Counted S → Result (Unit {0}) × S → Result (Unit {0}) × Counted S
  counted_op c r = (r.0, record c { process = r.1; returned = r.0; calls = c.calls + 1 })

  abbrev counted_wait : ℕ → Counted S → Option Error × S → Option Error × Counted S
  counted_wait delay c r =
      (r.0, record c { process = r.1; stopped = r.0; waited = c.waited + delay })

  abbrev pub counting : Boot S → Boot (Counted S)
  counting b = record {
    op = λ c. counted_op c (b.op c.process);
    wait = λ delay c. counted_wait delay c (b.wait delay c.process);
  }

  -- How the retry ends: in success, with the last error when every attempt failed, or with the
  -- error of the context when a wait was cut short.
  pub record IsWithin (what : String) (base : ℕ) (r : Result (Unit {0}) × Counted S) : Type 0 where
    pub calls_bound : r.1.calls ≤ 5
    pub waits_bound : r.1.waited ≤ 15 * base
    pub ends :
        ((r.0 ≡ ok tt) × (r.1.returned ≡ ok tt) × (1 ≤ r.1.calls))
        ⊎ (((e : Error) × (r.0 ≡ err (exhausted what e))
              × (r.1.returned ≡ err e)
              × (r.1.calls ≡ 5)
              × (r.1.waited ≡ 15 * base))
            ⊎ ((stop : Error) × (r.0 ≡ err (abandoned what stop))
                × (r.1.stopped ≡ some stop)
                × (r.1.calls < 5)))

  record IsFrom (what : String) (n delay : ℕ) (c : Counted S) (r : Result (Unit {0}) × Counted S)
      : Type 0 where
    calls_bound : r.1.calls ≤ c.calls + suc n
    waits_bound : r.1.waited ≤ c.waited + waits n delay
    ends :
        ((r.0 ≡ ok tt) × (r.1.returned ≡ ok tt) × (c.calls + 1 ≤ r.1.calls))
        ⊎ (((e : Error) × (r.0 ≡ err (exhausted what e))
              × (r.1.returned ≡ err e)
              × (r.1.calls ≡ c.calls + suc n)
              × (r.1.waited ≡ c.waited + waits n delay))
            ⊎ ((stop : Error) × (r.0 ≡ err (abandoned what stop))
                × (r.1.stopped ≡ some stop)
                × (r.1.calls ≤ c.calls + n)))

  abbrev called : Boot S → Counted S → Counted S
  called b c = ((counting b).op c).1

  abbrev waited_once : Boot S → ℕ → Counted S → Counted S
  waited_once b delay c = ((counting b).wait delay (called b c)).1

  after_one :
      (b : Boot S) (what : String) (m delay : ℕ) (c : Counted S) (r : Result (Unit {0}) × Counted S)
      → IsFrom what m (delay * 2) (waited_once b delay c) r
      → IsFrom what (suc m) delay c r
  after_one b what m delay c r f =
      let calls = f.calls_bound in
      let waits_ = f.waits_bound in
      let ends_ = f.ends in
      record {
        calls_bound = omega arith;
        waits_bound = omega arith;
        ends = elim f.ends [
          | inl (made, last, k) ↦ inl (made, last, omega arith)
          | inr (inl (e, failed, last, k, w)) ↦
              inr (inl (e, failed, last, omega arith, omega arith))
          | inr (inr (stop, cut, last, k)) ↦ inr (inr (stop, cut, last, omega arith))
        ];
      }

  attempts-IsFrom :
      (b : Boot S) (what : String) (n delay : ℕ) (c : Counted S)
      → IsFrom what n delay c (attempts (counting b) what (suc n) delay c)
  unfolding attempts
  attempts-IsFrom b what zero delay c = elim (Result-cases (b.op c.process).0) [
    | inl (e, failed) ↦
        rw (failed, attempts)
          (record {
            calls_bound = omega arith;
            waits_bound = omega arith;
            ends = inr (inl (e, refl, failed, omega arith, omega arith));
          })
    | inr (_, made) ↦
        rw (made, attempts)
          (record {
            calls_bound = omega arith;
            waits_bound = omega arith;
            ends = inl (refl, made, omega arith);
          })
  ]
  attempts-IsFrom b what (suc m) delay c = elim (Result-cases (b.op c.process).0) [
    | inl (e, failed) ↦ elim (Option-cases (b.wait delay (called b c).process).0) [
      | inl slept ↦
          let later = attempts-IsFrom b what m (delay * 2) (waited_once b delay c) in
          subst (IsFrom what (suc m) delay c)
            (sym (attempts-later (counting b) what m delay c e failed slept))
            (after_one b what m delay c _ later)
      | inr (stop, cut) ↦
          rw (failed, attempts)
            (rw cut (record {
              calls_bound = omega arith;
              waits_bound = omega arith;
              ends = inr (inr (stop, refl, refl, omega arith));
            }))
    ]
    | inr (_, made) ↦
        rw (made, attempts)
          (record {
            calls_bound = omega arith;
            waits_bound = omega arith;
            ends = inl (refl, made, omega arith);
          })
  ]

  -- Over any process, a start-up retry ends after at most five calls of its operation, with waits
  -- between them of at most 15 times its first delay in all: in success, after at least one call of
  -- which the last succeeded; or with the error of the last of five calls, after waits of exactly
  -- that sum; or, after fewer calls, with the error of the context that ended its last wait.
  pub do_with_delay-IsWithin :
      (b : Boot S) (what : String) (base : ℕ) (s : S)
      → IsWithin what base (
          do_with_delay
            (counting b)
            what
            base
            (record { process = s; returned = ok tt; stopped = none; calls = 0; waited = 0 }))
  unfolding do_with_delay
  do_with_delay-IsWithin b what base s =
      let f =
        attempts-IsFrom b what 4 base
          (record { process = s; returned = ok tt; stopped = none; calls = 0; waited = 0 }) in
      let calls = f.calls_bound in
      let waits_ = f.waits_bound in
      record {
        calls_bound = omega arith;
        waits_bound = omega arith;
        ends = elim f.ends [
          | inl (made, last, k) ↦ inl (made, last, omega arith)
          | inr (inl (e, failed, last, k, w)) ↦
              inr (inl (e, failed, last, omega arith, omega arith))
          | inr (inr (stop, cut, last, k)) ↦ inr (inr (stop, cut, last, omega arith))
        ];
      }
