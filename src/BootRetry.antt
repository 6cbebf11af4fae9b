-- ===== src/BootRetry.antt =====
-- internal/adapters/outbound/bootretry/retry.go: the bounded retry of a start-up operation, over the
-- state S of the process. Waiting is `time.After` against `ctx.Done()`: it ends with the error of
-- the context if that was done first.
pub mod Budget
use process_path_management.Prelude.{
  ℕ, ◌*◌, zero, suc, String, ◌++ˢ◌, Option, none, some, Bool, true, false, if◌then◌else◌,
}
use process_path_management.Errors.{Error, Result, ok, err, other, error_text}

-- DefaultRetries and DefaultDelay, the delay in nanoseconds
abbrev pub default_retries : ℕ
default_retries = 5

abbrev pub default_delay : ℕ
default_delay = 1000000000

pub record Boot (S : Type 0) : Type 0 where
  pub op : S → Result (Unit {0}) × S
  pub wait : ℕ → S → Option Error × S

abbrev pub exhausted : String → Error → Error
exhausted what e = other (what ++ˢ " (after 5 attempts): " ++ˢ error_text e)

abbrev pub abandoned : String → Error → Error
abandoned what e = other (what ++ˢ ": " ++ˢ error_text e)

-- `attempt == DefaultRetries`, by the number of the attempts that are left
abbrev pub is_last : ℕ → Bool
is_last zero = true
is_last (suc _) = false

module _ {S : Type 0} (b : Boot S) (what : String) where
  abbrev pub after_wait : Option Error × S → (S → Result (Unit {0}) × S) → Result (Unit {0}) × S
  after_wait (none, s) next = next s
  after_wait (some stop, s) next = (err (abandoned what stop), s)

  -- the loop; the first argument is the number of the attempts that are left, the last one's
  -- failure ends it without a wait
  unfoldable pub attempts : ℕ → ℕ → S → Result (Unit {0}) × S
  attempts zero delay s = (err (exhausted what (other "%!w(<nil>)")), s)
  attempts (suc left) delay s =
      let (r, t) = b.op s in
      let again = after_wait (b.wait delay t) (attempts left (delay * 2)) in
      elim r [
        | ok _ ↦ (ok tt, t)
        | err e ↦ if is_last left then (err (exhausted what e), t) else again
      ]

  unfoldable pub do_with_delay : ℕ → S → Result (Unit {0}) × S
  unfolding attempts
  do_with_delay base s = attempts default_retries base s

  -- Do
  unfoldable pub do_boot : S → Result (Unit {0}) × S
  unfolding do_with_delay
  do_boot s = do_with_delay default_delay s
