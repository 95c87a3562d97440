-- ===== src/Token/Durations/Units.antt =====
-- toSeconds of src/modules/auth/services/token.service.ts, on the numbers that it is to read.
use lit_server_nest.Prelude.{
  ℕ, zero, suc, ◌+◌, ◌*◌, ◌-◌, ◌/◌, ◌%◌, ◌≤◌, ◌<◌, ◌≡◌, ◌≢◌, ◌∙◌, refl, ap, true, Option, none,
  some, List, [], ◌∷◌, ◌++◌, String, ltb, get_or, All, arith, if◌then◌else◌, inl, inr, Bool-cases,
}
use lit_server_nest.Token.Durations.{
  codes, is_digit, is_unit, multipliers, number, match_unit, match_rest, match_duration, to_seconds,
}

-- A number in decimal, from its last digit on; the fuel is more than its digits.
abbrev pub digits : ℕ → ℕ → List ℕ
digits zero n = []
digits (suc fuel) n =
    let before = digits fuel (n / 10) in
    if ltb n 10 then (b'0' + n) ∷ [] else before ++ ((b'0' + n % 10) ∷ [])

abbrev pub decimal : ℕ → List ℕ
decimal n = digits (suc n) n

abbrev pub suffix : Option ℕ → List ℕ
suffix none = []
suffix (some u) = u ∷ []

-- No unit, or one of the four.
abbrev pub IsUnit : Option ℕ → Type 0
IsUnit u = is_unit (get_or u b's') ≡ true

AreDigits : List ℕ → Type 0
AreDigits ds = All (λ d. is_digit d ≡ true) ds

number-append :
    (n : ℕ) (ds : List ℕ) (d : ℕ) → number n (ds ++ (d ∷ [])) ≡ 10 * number n ds + (d - b'0')
unfolding number
number-append n [] d = refl
number-append n (e ∷ ds) d = number-append (10 * n + (e - b'0')) ds d

number-digits : (fuel n : ℕ) → n < fuel → number 0 (digits fuel n) ≡ n
unfolding number
number-digits zero n h = omega arith
number-digits (suc fuel) n h = elim (Bool-cases (ltb n 10)) [
  | inl e ↦ rw e (omega arith)
  | inr e ↦
      rw (e, number-append 0 (digits fuel (n / 10)) (b'0' + n % 10))
        (ground (arith, number-digits fuel (n / 10)))
]

AreDigits-append : (ds es : List ℕ) → AreDigits ds → AreDigits es → AreDigits (ds ++ es)
unfolding AreDigits
AreDigits-append [] es h k = k
AreDigits-append (d ∷ ds) es h k = (h.0, AreDigits-append ds es h.1 k)

AreDigits-digits : (fuel n : ℕ) → AreDigits (digits fuel n)
unfolding AreDigits is_digit
AreDigits-digits zero n = tt
AreDigits-digits (suc fuel) n = elim (Bool-cases (ltb n 10)) [
  | inl e ↦ rw e (ground arith, tt)
  | inr e ↦ rw e (
      AreDigits-append (digits fuel (n / 10)) _ (AreDigits-digits fuel (n / 10)) (ground arith, tt))
]

match_rest-suffix : (u : Option ℕ) → IsUnit u → match_rest (suffix u) ≡ some ([], u)
unfolding match_rest match_unit is_digit is_unit
match_rest-suffix none h = refl
match_rest-suffix (some u) h = ground arith

match_rest-append :
    (ds rest : List ℕ) (u : Option ℕ)
    → AreDigits ds
    → match_rest rest ≡ some ([], u)
    → match_rest (ds ++ rest) ≡ some (ds, u)
unfolding match_rest AreDigits
match_rest-append [] rest u h e = e
match_rest-append (d ∷ ds) rest u h e = rw (h.0, match_rest-append ds rest u h.1 e) refl

starts_with_digit :
    (ds rest : List ℕ)
    → ds ≢ []
    → AreDigits ds
    → match_duration (ds ++ rest) ≡ match_rest (ds ++ rest)
unfolding match_duration AreDigits
starts_with_digit [] rest n h = elim (n refl) [ ]
starts_with_digit (d ∷ ds) rest n h = rw (h.0) refl

append-nonempty : (ds : List ℕ) (d : ℕ) → ds ++ (d ∷ []) ≢ []
append-nonempty [] d e = cc e
append-nonempty (c ∷ ds) d e = cc e

decimal-nonempty : (n : ℕ) → decimal n ≢ []
decimal-nonempty n e = ground (arith, append-nonempty (digits n (n / 10)) (b'0' + n % 10))

read_decimal :
    (duration : String) (n : ℕ) (u : Option ℕ)
    → IsUnit u
    → codes duration ≡ decimal n ++ suffix u
    → to_seconds duration ≡ n * multipliers (get_or u b's')
unfolding to_seconds
read_decimal duration n u unit written =
    let found : match_duration (codes duration) ≡ some (decimal n, u) =
      rw
        (
          written,
          starts_with_digit (decimal n) (suffix u) (decimal-nonempty n)
              (AreDigits-digits (suc n) n),
        )
        (match_rest-append (decimal n) (suffix u) u (AreDigits-digits (suc n) n)
          (match_rest-suffix u unit)) in
    rw (to_seconds, found)
      (ap (λ (m : ℕ). m * multipliers (get_or u b's')) (number-digits (suc n) n (omega arith)))

pub data TimeUnit : Type 0 where
  second minute hour day : TimeUnit

-- How a unit is written; a duration without one is in seconds.
abbrev pub letter : Option TimeUnit → Option ℕ
letter none = none
letter (some second) = some b's'
letter (some minute) = some b'm'
letter (some hour) = some b'h'
letter (some day) = some b'd'

abbrev pub seconds_in : Option TimeUnit → ℕ
seconds_in none = 1
seconds_in (some second) = 1
seconds_in (some minute) = 60
seconds_in (some hour) = 3600
seconds_in (some day) = 86400

letter-IsUnit : (u : Option TimeUnit) → IsUnit (letter u)
unfolding is_unit
letter-IsUnit none = refl
letter-IsUnit (some second) = refl
letter-IsUnit (some minute) = refl
letter-IsUnit (some hour) = refl
letter-IsUnit (some day) = refl

multipliers_lem : (u : Option TimeUnit) → multipliers (get_or (letter u) b's') ≡ seconds_in u
unfolding multipliers
multipliers_lem none = refl
multipliers_lem (some second) = refl
multipliers_lem (some minute) = refl
multipliers_lem (some hour) = refl
multipliers_lem (some day) = refl

-- A number in decimal with no unit, or with one of `s`, `m`, `h` and `d`, is read as that number of
-- seconds, minutes of 60, hours of 3600 or days of 86400 seconds, as long as the result is at most
-- 2 ^ 53, up to which a double is exact.
pub to_seconds-decimal :
    (duration : String) (n : ℕ) (u : Option TimeUnit)
    → codes duration ≡ decimal n ++ suffix (letter u)
    → n * seconds_in u ≤ 9007199254740992
    → to_seconds duration ≡ n * seconds_in u
to_seconds-decimal duration n u written exact =
    read_decimal duration n (letter u) (letter-IsUnit u) written
    ∙ ap (λ (m : ℕ). n * m) (multipliers_lem u)
