-- ===== src/Duration/Examples.antt =====
-- Durations, parsed.
use cnf_certsuite_operator.Prelude.{ℕ, ◌*◌, ◌≡◌, refl, none, some}
use cnf_certsuite_operator.Prelude.Int.{pos, negsuc}
use cnf_certsuite_operator.Duration.{parse_duration, minute}

no_fraction : ℕ → ℕ → ℕ → ℕ
no_fraction f unit scale = 0

parse_examples :
    (parse_duration no_fraction "1h30m" ≡ some (pos (90 * minute)))
    × (parse_duration no_fraction "-2ms" ≡ some (negsuc 1999999))
    × (parse_duration no_fraction "0" ≡ some (pos 0))
    × (parse_duration no_fraction "" ≡ none)
    × (parse_duration no_fraction "1d" ≡ none)
    × (parse_duration no_fraction "3" ≡ none)
    × (parse_duration no_fraction "2562047h47m17s" ≡ none)
unfolding parse_duration no_fraction
parse_examples = (refl, refl, refl, refl, refl, refl, refl)
