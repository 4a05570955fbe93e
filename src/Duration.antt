-- ===== src/Duration.antt =====
-- Go's `time.Duration`, an `int64` of nanoseconds, and `time.ParseDuration` of the standard
-- library, which internal/controller/certsuiterun_controller.go applies to a run's timeout. The
-- product of a fraction, a unit and a scale in floating point is the parameter `fraction`.
pub mod Digits
pub mod Printed
mod Examples
use Prim.Native.Char.{code}
use mathlib.Core.Option
use cnf_certsuite_operator.Prelude.{
  ℕ, ◌+◌, ◌-◌, ◌*◌, ◌/◌, ◌%◌, ◌^◌, String, Bool, true, false, not, ◌&&◌, ◌||◌, Option, none, some,
  List, [], ◌∷◌, ◌++◌, leb, ltb, ◌==◌, if◌then◌else◌,
}
use cnf_certsuite_operator.Prelude.Int.{ℤ, pos, negsuc, sub_ℕ, wrap_int64}

-- The code points of a text.
abbrev pub codes : String → List ℕ
codes String.[] = []
codes (String.◌∷◌ c s) = code c ∷ codes s

same : List ℕ → List ℕ → Bool
same [] [] = true
same (x ∷ xs) (y ∷ ys) = x == y && same xs ys
same _ _ = false

abbrev pub second : ℕ
second = 1000000000

abbrev pub minute : ℕ
minute = 60 * second

abbrev pub hour : ℕ
hour = 60 * minute

-- unitMap
unit_map : List ℕ → Option ℕ
unfolding same
unit_map u =
    if same u (codes "ns")
    then some 1
    else if same u (codes "us") || same u (codes "µs") || same u (codes "μs")
    then some 1000
    else if same u (codes "ms")
    then some 1000000
    else if same u (codes "s")
    then some second
    else if same u (codes "m")
    then some minute
    else if same u (codes "h")
    then some hour
    else none

abbrev is_digit : ℕ → Bool
is_digit c = leb b'0' c && leb c b'9'

pub data Mode : Type 0 where
  whole fractional naming : Mode

-- A term that is being read: its whole part and fraction, whether there are digits, and its unit.
pub record Term : Type 0 where
  pub mode : Mode
  pub v : ℕ
  pub has_digits : Bool
  pub f : ℕ
  pub scale : ℕ
  pub overflow : Bool
  pub unit : List ℕ

abbrev fresh : Term
fresh = record {
  mode = whole;
  v = 0;
  has_digits = false;
  f = 0;
  scale = 1;
  overflow = false;
  unit = [];
}

-- leadingInt, by one digit.
whole_digit : ℕ → Term → Option Term
whole_digit c t =
    let x = t.v * 10 + (c - b'0') in
    if ltb (2 ^ 63 / 10) t.v || ltb (2 ^ 63) x
    then none
    else some (record t { v = x; has_digits = true })

-- leadingFraction, by one digit: those behind an overflow are skipped.
fraction_digit : ℕ → Term → Term
fraction_digit c t =
    let y = t.f * 10 + (c - b'0') in
    if t.overflow
    then t
    else if ltb ((2 ^ 63 - 1) / 10) t.f || ltb (2 ^ 63) y
    then record t { overflow = true; has_digits = true }
    else record t { f = y; scale = t.scale * 10; has_digits = true }

-- The first character of a unit.
start_unit : ℕ → Term → Option Term
start_unit c t = if t.has_digits then some (record t { mode = naming; unit = c ∷ [] }) else none

-- The first character of a term.
start_term : ℕ → Option Term
unfolding whole_digit
start_term c =
    if is_digit c
    then whole_digit c fresh
    else if c == b'.'
    then some (record fresh { mode = fractional })
    else none

module _ (fraction : ℕ → ℕ → ℕ → ℕ) where
  -- The term's nanoseconds, added to those before it. Sums wrap around, as the source's do.
  add_value : ℕ → Term → Option ℕ → Option ℕ
  add_value d t none = none
  add_value d t (some u) =
      let v = t.v * u in
      let w = if ltb 0 t.f then (v + fraction t.f u t.scale) % 2 ^ 64 else v in
      let sum = (d + w) % 2 ^ 64 in
      if ltb (2 ^ 63 / u) t.v || ltb (2 ^ 63) w || ltb (2 ^ 63) sum then none else some sum

  add_term : ℕ → Term → Option ℕ
  unfolding add_value unit_map
  add_term d t = add_value d t (unit_map t.unit)

  -- One character, with the sum so far and the term that is being read.
  read_char : ℕ → ℕ → Term → Option (ℕ × Term)
  unfolding whole_digit fraction_digit start_unit start_term add_term Option.bind
  read_char c d t = elim t.mode [
    | whole ↦
        if is_digit c
        then Option.map (λ t'. (d, t')) (whole_digit c t)
        else if c == b'.'
        then some (d, record t { mode = fractional })
        else Option.map (λ t'. (d, t')) (start_unit c t)
    | fractional ↦
        if is_digit c
        then some (d, fraction_digit c t)
        else if c == b'.'
        then none
        else Option.map (λ t'. (d, t')) (start_unit c t)
    | naming ↦
        if is_digit c || c == b'.'
        then Option.bind (add_term d t) (λ d'. Option.map (λ t'. (d', t')) (start_term c))
        else some (d, record t { unit = t.unit ++ c ∷ [] })
  ]

  read_chars : List ℕ → ℕ → Term → Option ℕ
  unfolding read_char
  read_chars [] d t = elim t.mode [ naming ↦ add_term d t | _ ↦ none ]
  read_chars (c ∷ cs) d t = elim (read_char c d t) [
    | none ↦ none
    | some (d', t') ↦ read_chars cs d' t'
  ]

  -- The sum of the terms, when the sign has been read.
  magnitude : List ℕ → Option ℕ
  unfolding read_chars Option.bind
  magnitude [] = none
  magnitude (c ∷ cs) =
      if same (c ∷ cs) (codes "0") then some 0 else Option.bind (start_term c) (read_chars cs 0)

  negated : Option ℕ → Option ℤ
  negated d = Option.map (λ n. sub_ℕ 0 n) d

  bounded : Option ℕ → Option ℤ
  bounded none = none
  bounded (some d) = if ltb (2 ^ 63 - 1) d then none else some (pos d)

  signed : List ℕ → Option ℤ
  unfolding magnitude negated bounded
  signed [] = none
  signed (c ∷ cs) =
      if c == b'-'
      then negated (magnitude cs)
      else if c == b'+'
      then bounded (magnitude cs)
      else bounded (magnitude (c ∷ cs))

  -- time.ParseDuration, with `none` for an error.
  unfoldable pub parse_duration : String → Option ℤ
  unfolding signed
  parse_duration s = signed (codes s)

-- now.Sub(t), for times in nanoseconds since Go's zero time: the result saturates.
unfoldable pub sub_time : ℕ → ℕ → ℤ
sub_time now t =
    if ltb (t + (2 ^ 63 - 1)) now
    then pos (2 ^ 63 - 1)
    else if ltb (now + 2 ^ 63) t
    then negsuc (2 ^ 63 - 1)
    else sub_ℕ now t
