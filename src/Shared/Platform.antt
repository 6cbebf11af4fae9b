-- ===== src/Shared/Platform.antt =====
-- What the program takes from Go's library and the host through tables that are not in the
-- repository: the case table of unicode beyond ASCII, the IANA time zone database, and the text
-- forms of durations and times; and the collation of the database and
-- the precision of its timestamps.
use Prim.Native.Char.{Char}
use Prim.Native.String.{[], ◌∷◌}
use process_path_management.Prelude.{ℕ, String, Bool, Option}
use process_path_management.Prelude.Int.{ℤ}

pub record Platform : Type 0 where
  -- unicode.ToLower
  pub lower_rune : Char → Char
  -- does time.LoadLocation find the zone
  pub zone_known : String → Bool
  -- time.ParseDuration and Duration.String, in nanoseconds
  pub parse_duration : String → Option ℤ
  pub show_duration : ℤ → String
  -- t.UTC().Format(time.RFC3339), of nanoseconds since the zero Time
  pub show_time : ℕ → String
  -- the order of a TEXT column: is the first text not after the second
  pub text_le : String → String → Bool
  -- what a TIMESTAMPTZ column keeps of a time
  pub stored_time : ℕ → ℕ

-- strings.ToLower: the rune table, rune by rune.
unfoldable pub to_lower : Platform → String → String
to_lower p [] = []
to_lower p (c ∷ s) = p.lower_rune c ∷ to_lower p s
