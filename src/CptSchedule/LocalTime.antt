-- ===== src/CptSchedule/LocalTime.antt =====
-- isValidLocalTime and parseDigits of internal/domain/cptschedule/cpt_schedule.go. Go measures and
-- indexes a string by bytes, so the text is taken to its UTF-8 first. A rune beyond ASCII is no
-- digit, and neither is any byte of its UTF-8, so the loop over the runes is one over the bytes.
use Prim.Native.Char.{code}
use process_path_management.Prelude.{
  ℕ, ◌+◌, ◌-◌, ◌*◌, ◌/◌, ◌%◌, ◌<◌, String, Bool, true, false, ◌&&◌, ◌||◌, ◌≡◌, refl, ◌↔◌, Option,
  none, some, List, [], ◌∷◌, ◌++◌, arith, leb, ltb, nat_eq, if◌then◌else◌,
}

utf8 : ℕ → List ℕ
utf8 c =
    if ltb c 0x80
    then c ∷ []
    else if ltb c 0x800
    then (0xc0 + c / 64) ∷ (0x80 + c % 64) ∷ []
    else if ltb c 0x10000
    then (0xe0 + c / 4096) ∷ (0x80 + c / 64 % 64) ∷ (0x80 + c % 64) ∷ []
    else (0xf0 + c / 262144) ∷ (0x80 + c / 4096 % 64) ∷ (0x80 + c / 64 % 64) ∷ (0x80 + c % 64) ∷ []

unfoldable pub bytes : String → List ℕ
unfolding utf8
bytes String.[] = []
bytes (String.◌∷◌ c s) = utf8 (code c) ++ bytes s

-- the loop of parseDigits; `none` is its error
parse_digits : ℕ → List ℕ → Option ℕ
parse_digits n [] = some n
parse_digits n (r ∷ rest) =
    let more = parse_digits (n * 10 + (r - b'0')) rest in
    if ltb r b'0' || ltb b'9' r then none else more

in_range : Option ℕ → Option ℕ → Bool
in_range (some h) (some m) = leb h 23 && leb m 59
in_range _ _ = false

-- five bytes with a colon in the middle: s[0:2], s[2], s[3:5]
valid_bytes : List ℕ → Bool
valid_bytes (a ∷ b ∷ c ∷ d ∷ e ∷ []) =
    if nat_eq c b':'
    then in_range (parse_digits 0 (a ∷ b ∷ [])) (parse_digits 0 (d ∷ e ∷ []))
    else false
valid_bytes _ = false

unfoldable pub is_valid_local_time : String → Bool
unfolding valid_bytes bytes parse_digits in_range
is_valid_local_time s = valid_bytes (bytes s)

-- The text of a time of day, for comparison: two digits, a colon, two digits.
abbrev pub clock : ℕ → ℕ → List ℕ
clock h m = (48 + h / 10) ∷ (48 + h % 10) ∷ 58 ∷ (48 + m / 10) ∷ (48 + m % 10) ∷ []

abbrev IsClock : List ℕ → Type 0
IsClock s = (h : ℕ) × (m : ℕ) × (h < 24) × (m < 60) × (s ≡ clock h m)

two_digits_iff :
    (a b v : ℕ)
    → (parse_digits 0 (a ∷ b ∷ []) ≡ some v) ↔ ((v < 100) × (a ≡ 48 + v / 10) × (b ≡ 48 + v % 10))
unfolding parse_digits
two_digits_iff a b v = ground arith

in_range_inv :
    (o p : Option ℕ)
    → in_range o p ≡ true
    → (h : ℕ) × (m : ℕ) × (h < 24) × (m < 60) × (o ≡ some h) × (p ≡ some m)
unfolding in_range
in_range_inv (some h) (some m) e = (h, m, ground arith, ground arith, refl, refl)
in_range_inv (some h) none e = absurd (cc)
in_range_inv none p e = absurd (cc)

five-IsClock :
    (a b c d e : ℕ) → valid_bytes (a ∷ b ∷ c ∷ d ∷ e ∷ []) ≡ true → IsClock (a ∷ b ∷ c ∷ d ∷ e ∷ [])
unfolding valid_bytes
five-IsClock a b c d e t =
    let (h, m, p, q, x, y) =
      in_range_inv (parse_digits 0 (a ∷ b ∷ [])) (parse_digits 0 (d ∷ e ∷ [])) (ground arith) in
    (h, m, p, q, ground (arith, two_digits_iff a b h, two_digits_iff d e m))

valid_bytes-IsClock : (s : List ℕ) → valid_bytes s ≡ true → IsClock s
unfolding valid_bytes
valid_bytes-IsClock (a ∷ b ∷ c ∷ d ∷ e ∷ []) t = five-IsClock a b c d e t
valid_bytes-IsClock _ t = cc

valid_bytes-clock : (h m : ℕ) → h < 24 → m < 60 → valid_bytes (clock h m) ≡ true
unfolding valid_bytes in_range
valid_bytes-clock h m p q = ground (
  arith,
  two_digits_iff (48 + h / 10) (48 + h % 10) h,
  two_digits_iff (48 + m / 10) (48 + m % 10) m,
)

-- A text passes exactly if it is HH:MM, two digits each, of an hour below 24 and a minute below 60.
pub is_valid_local_time_iff :
    (s : String)
    → (is_valid_local_time s ≡ true)
      ↔ ((h : ℕ) × (m : ℕ) × (h < 24) × (m < 60) × (bytes s ≡ clock h m))
unfolding is_valid_local_time
is_valid_local_time_iff s = (
  valid_bytes-IsClock (bytes s),
  λ t. let (h, m, p, q, e) = t in rw e (valid_bytes-clock h m p q),
)
