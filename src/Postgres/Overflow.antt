-- ===== src/Postgres/Overflow.antt =====
-- intervalToDuration of process_path_repo.go in int64 arithmetic, as Go computes it.
use process_path_management.Prelude.{
  ℕ, zero, suc, ◌+◌, ◌-◌, ◌*◌, ◌/◌, ◌%◌, ◌≤◌, ◌<◌, ◌^◌, ◌≡◌, refl, ◌↔◌, arith, ltb, Bool-cases, inl,
  inr, if◌then◌else◌,
}
use process_path_management.Prelude.Int.{ℤ, pos, negsuc, neg, quot, scale, ◌+ℤ◌}
use process_path_management.Postgres.RoundTrip.{stored_duration-scale, scale-neg}
use process_path_management.Postgres.Rows.{Interval, duration_to_interval, interval_to_duration}

abbrev modulus : ℕ
modulus = 2 ^ 64

-- the bits of an integer, and the int64 that they stand for
abbrev pub word : ℤ → ℕ
word (pos n) = n % modulus
word (negsuc n) = modulus - 1 - n % modulus

abbrev pub signed : ℕ → ℤ
signed w = if ltb w (2 ^ 63) then pos w else negsuc (modulus - 1 - w)

abbrev pub IsInt64 : ℤ → Type 0
IsInt64 (pos n) = n < 2 ^ 63
IsInt64 (negsuc n) = n < 2 ^ 63

abbrev pub add64 : ℕ → ℕ → ℕ
add64 a b = (a + b) % modulus

abbrev pub mul64 : ℕ → ℕ → ℕ
mul64 a b = (a * b) % modulus

signed-word_iff : (z : ℤ) → (signed (word z) ≡ z) ↔ IsInt64 z
signed-word_iff (pos n) = ground arith
signed-word_iff (negsuc n) = ground arith

word-neg : (k : ℕ) → word (neg k) ≡ (modulus - k % modulus) % modulus
word-neg zero = refl
word-neg (suc k) = omega arith

word-1000 : (z : ℤ) → mul64 (word z) 1000 ≡ word (scale z 1000)
word-1000 (pos n) = omega arith
word-1000 (negsuc n) = rw (word-neg (suc n * 1000)) (omega arith)

word-days : (z : ℤ) → mul64 (mul64 (word z) 24) 3600000000000 ≡ word (scale z 86400000000000)
word-days (pos n) = omega arith
word-days (negsuc n) = rw (word-neg (suc n * 86400000000000)) (omega arith)

word-months :
    (z : ℤ) → mul64 (mul64 (mul64 (word z) 30) 24) 3600000000000 ≡ word (scale z 2592000000000000)
word-months (pos n) = omega arith
word-months (negsuc n) = rw (word-neg (suc n * 2592000000000000)) (omega arith)

word-add : (a b : ℤ) → add64 (word a) (word b) ≡ word (a +ℤ b)
unfolding ◌+ℤ◌
word-add (pos m) (pos n) = ground arith
word-add (pos m) (negsuc n) = ground arith
word-add (negsuc m) (pos n) = ground arith
word-add (negsuc m) (negsuc n) = ground arith

-- time.Duration(iv.Microseconds) * time.Microsecond and the two sums after it, each in int64
unfoldable pub interval_to_duration64 : Interval → ℤ
interval_to_duration64 iv =
    if iv.valid
    then signed (
        add64
          (add64 (mul64 (word iv.microseconds) 1000)
            (mul64 (mul64 (word iv.days) 24) 3600000000000))
          (mul64 (mul64 (mul64 (word iv.months) 30) 24) 3600000000000))
    else pos 0

interval64-signed :
    (iv : Interval) → interval_to_duration64 iv ≡ signed (word (interval_to_duration iv))
unfolding interval_to_duration64 interval_to_duration
interval64-signed iv = elim (Bool-cases iv.valid) [
  | inl set ↦ rw (set, word-1000, word-days, word-months, word-add, word-add) refl
  | inr null ↦ rw null refl
]

-- Reading an INTERVAL column gives its exact length, days of 24 hours and months of 30 days, exactly
-- if that is within int64: a longer one, which this service never writes, comes back as another
-- duration.
pub interval_to_duration64_iff :
    (iv : Interval)
    → (interval_to_duration64 iv ≡ interval_to_duration iv) ↔ IsInt64 (interval_to_duration iv)
interval_to_duration64_iff iv =
    rw (interval64-signed iv) (signed-word_iff (interval_to_duration iv))

neg-IsInt64 : (k : ℕ) → k ≤ 2 ^ 63 → IsInt64 (neg k)
neg-IsInt64 zero b = omega arith
neg-IsInt64 (suc k) b = omega arith

scale-IsInt64 : (d : ℤ) → IsInt64 d → IsInt64 (scale (quot d 1000) 1000)
scale-IsInt64 (pos n) h = omega arith
scale-IsInt64 (negsuc n) h =
    rw (scale-neg (suc n / 1000)) (neg-IsInt64 (suc n / 1000 * 1000) (omega arith))

-- A duration that this service writes is within int64 as it is read back.
stored-IsInt64 :
    (d : ℤ)
    → IsInt64 d
    → interval_to_duration64 (duration_to_interval d)
      ≡ interval_to_duration (duration_to_interval d)
stored-IsInt64 d h =
    (interval_to_duration64_iff (duration_to_interval d)).1
      (rw (stored_duration-scale d) (scale-IsInt64 d h))
