-- ===== src/Duration/Printed.antt =====
-- `time.ParseDuration` on a decimal number of seconds, minutes or hours.
use mathlib.Core.Option
use cnf_certsuite_operator.Prelude.{
  ℕ, ◌==◌, ◌+◌, ◌-◌, ◌*◌, ◌/◌, ◌^◌, ◌<◌, String, ◌<>◌, ◌≡◌, refl, ap, ◌∙◌, true, false, Option,
  none, some, List, [], ◌∷◌, ◌++◌, All, ltb, arith,
}
use cnf_certsuite_operator.Prelude.Decimal.{digit, decimal}
use cnf_certsuite_operator.Prelude.Int.{pos}
use cnf_certsuite_operator.Duration.{
  codes, same, second, minute, hour, Term, naming, fresh, is_digit, whole_digit, start_unit,
  start_term, unit_map, add_value, add_term, read_char, read_chars, magnitude, bounded, signed,
  parse_duration,
}
use cnf_certsuite_operator.Duration.Digits.{
  codes-append, value_of, value_of_grows, IsDigit, Reads, decimal-Reads,
}

abbrev read_as : ℕ → Term
read_as v = record fresh { v = v; has_digits = true }

-- A digit behind a value that stays in the range.
whole_digit-read :
    (c v : ℕ)
    → v * 10 + (c - 48) < 2 ^ 63
    → whole_digit c (read_as v) ≡ some (read_as (v * 10 + (c - 48)))
unfolding whole_digit
whole_digit-read c v small = ground arith

start_term-read : (c : ℕ) → IsDigit c → start_term c ≡ some (read_as (c - 48))
unfolding start_term whole_digit
start_term-read c digit = ground arith

module _ (fraction : ℕ → ℕ → ℕ → ℕ) where
  abbrev ending_in : ℕ → ℕ → Term
  ending_in unit_code v = record (read_as v) { mode = naming; unit = unit_code ∷ [] }

  read_char-digit :
      (c v : ℕ)
      → IsDigit c
      → v * 10 + (c - 48) < 2 ^ 63
      → read_char fraction c 0 (read_as v) ≡ some (0, read_as (v * 10 + (c - 48)))
  unfolding read_char
  read_char-digit c v digit small = rw digit (rw (whole_digit-read c v small) refl)

  read_char-unit :
      (u v : ℕ)
      → is_digit u ≡ false
      → (u == b'.') ≡ false
      → read_char fraction u 0 (read_as v) ≡ some (0, ending_in u v)
  unfolding read_char start_unit
  read_char-unit u v not_digit not_dot = rw not_digit (rw not_dot refl)

  read_chars-step :
      (c d d' : ℕ) (cs : List ℕ) (t t' : Term)
      → read_char fraction c d t ≡ some (d', t')
      → read_chars fraction (c ∷ cs) d t ≡ read_chars fraction cs d' t'
  unfolding read_chars
  read_chars-step c d d' cs t t' e =
      ap
        (λ (o : Option (ℕ × Term)). elim o [
          | none ↦ none
          | some (x, y) ↦ read_chars fraction cs x y
        ])
        e

  read_chars-digits :
      (ds : List ℕ) (v u : ℕ)
      → All IsDigit ds
      → value_of v ds < 2 ^ 63
      → is_digit u ≡ false
      → (u == b'.') ≡ false
      → read_chars fraction (ds ++ u ∷ []) 0 (read_as v)
        ≡ add_term fraction 0 (ending_in u (value_of v ds))
  unfolding read_chars value_of
  read_chars-digits [] v u all small not_digit not_dot =
      read_chars-step u 0 0 [] (read_as v) (ending_in u v) (read_char-unit u v not_digit not_dot)
  read_chars-digits (c ∷ cs) v u (digit, all) small not_digit not_dot =
      read_chars-step c 0 0 (cs ++ u ∷ []) (read_as v) (read_as (v * 10 + (c - 48)))
        (read_char-digit c v digit (omega (arith, value_of_grows (v * 10 + (c - 48)) cs, small)))
      ∙ read_chars-digits cs (v * 10 + (c - 48)) u all small not_digit not_dot

  add_value-exact :
      (u v unit : ℕ)
      → ltb (2 ^ 63 / unit) v ≡ false
      → v * unit < 2 ^ 63
      → add_value fraction 0 (ending_in u v) (some unit) ≡ some (v * unit)
  unfolding add_value
  add_value-exact u v unit fits small = rw fits (ground (arith, small))

  add_term-exact :
      (u v unit : ℕ)
      → unit_map (u ∷ []) ≡ some unit
      → ltb (2 ^ 63 / unit) v ≡ false
      → v * unit < 2 ^ 63
      → add_term fraction 0 (ending_in u v) ≡ some (v * unit)
  unfolding add_term
  add_term-exact u v unit known fits small =
      ap (add_value fraction 0 (ending_in u v)) known ∙ add_value-exact u v unit fits small

  not_zero : (c u : ℕ) (cs : List ℕ) → same (c ∷ (cs ++ u ∷ [])) (codes "0") ≡ false
  unfolding same
  not_zero c u [] = ground arith
  not_zero c u (d ∷ cs) = ground arith

  signed-digit :
      (c : ℕ) (cs : List ℕ)
      → IsDigit c
      → signed fraction (c ∷ cs) ≡ bounded fraction (magnitude fraction (c ∷ cs))
  unfolding signed
  signed-digit c cs digit =
      let not_minus : (c == b'-') ≡ false = ground (arith, digit) in
      let not_plus : (c == b'+') ≡ false = ground (arith, digit) in rw not_minus (rw not_plus refl)

  bounded-exact : (d : ℕ) → d < 2 ^ 63 → bounded fraction (some d) ≡ some (pos d)
  unfolding bounded
  bounded-exact d small = ground (arith, small)

  -- Digits, and the letter of a unit behind them.
  module _ (n u unit : ℕ) (not_digit : is_digit u ≡ false) (not_dot : (u == b'.') ≡ false)
      (known : unit_map (u ∷ []) ≡ some unit) (fits : ltb (2 ^ 63 / unit) n ≡ false)
      (small : n * unit < 2 ^ 63) (smaller : n < 2 ^ 63) where
    magnitude-unit :
        (c : ℕ) (cs : List ℕ)
        → IsDigit c
        → All IsDigit cs
        → value_of (c - 48) cs ≡ n
        → magnitude fraction (c ∷ (cs ++ u ∷ [])) ≡ some (n * unit)
    unfolding magnitude Option.bind
    magnitude-unit c cs digit all value_is = rw (not_zero c u cs) (
        rw (start_term-read c digit) (
          read_chars-digits cs (c - 48) u all (omega (arith, value_is, smaller)) not_digit not_dot
          ∙ (rw value_is (add_term-exact u n unit known fits small))))

    signed-unit : (l : List ℕ) → Reads n l → signed fraction (l ++ u ∷ []) ≡ some (pos (n * unit))
    unfolding value_of
    signed-unit l r =
        let start : r.first - 48 ≡ 0 * 10 + (r.first - 48) = omega arith in
        let m =
          magnitude-unit r.first r.rest r.digits_only.0 r.digits_only.1
            (ap (λ (v : ℕ). value_of v r.rest) start ∙ r.value_is) in
        rw r.split (
          signed-digit r.first (r.rest ++ u ∷ []) r.digits_only.0
          ∙ (rw m (bounded-exact (n * unit) small)))

    parse_duration-unit :
        (letter : String)
        → codes letter ≡ u ∷ []
        → parse_duration fraction (decimal n <> letter) ≡ some (pos (n * unit))
    unfolding parse_duration
    parse_duration-unit letter spelled =
        ap (signed fraction)
          (codes-append (decimal n) letter ∙ ap (λ (l : List ℕ). codes (decimal n) ++ l) spelled)
        ∙ signed-unit (codes (decimal n)) (decimal-Reads n)

  -- A number of seconds, minutes or hours in the range of `int64` is read as so many nanoseconds.
  pub parse_duration-seconds :
      (n : ℕ)
      → n * second < 2 ^ 63
      → parse_duration fraction (decimal n <> "s") ≡ some (pos (n * second))
  unfolding unit_map same
  parse_duration-seconds n small =
      parse_duration-unit n b's' second refl refl refl (ground (arith, small)) small
        (omega (arith, small)) "s" refl

  pub parse_duration-minutes :
      (n : ℕ)
      → n * minute < 2 ^ 63
      → parse_duration fraction (decimal n <> "m") ≡ some (pos (n * minute))
  unfolding unit_map same
  parse_duration-minutes n small =
      parse_duration-unit n b'm' minute refl refl refl (ground (arith, small)) small
        (omega (arith, small)) "m" refl

  pub parse_duration-hours :
      (n : ℕ)
      → n * hour < 2 ^ 63
      → parse_duration fraction (decimal n <> "h") ≡ some (pos (n * hour))
  unfolding unit_map same
  parse_duration-hours n small =
      parse_duration-unit n b'h' hour refl refl refl (ground (arith, small)) small
        (omega (arith, small)) "h" refl
