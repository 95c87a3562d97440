-- ===== src/Token/Durations.antt =====
-- The lifetimes of tokens: toSeconds of src/modules/auth/services/token.service.ts.
pub mod Units
use Prim.Native.Char.{code}
use lit_server_nest.Prelude.{
  ℕ, ◌+◌, ◌*◌, ◌-◌, Bool, true, false, ◌&&◌, ◌||◌, Option, none, some, List, [], ◌∷◌, String, leb,
  nat_eq, get_or, if◌then◌else◌,
}

-- The characters of a text.
abbrev pub codes : String → List ℕ
codes String.[] = []
codes (String.◌∷◌ c s) = code c ∷ codes s

-- `\d`
unfoldable pub is_digit : ℕ → Bool
is_digit c = leb b'0' c && leb c b'9'

-- `[smhd]`
unfoldable pub is_unit : ℕ → Bool
is_unit c = nat_eq c b's' || nat_eq c b'm' || nat_eq c b'h' || nat_eq c b'd'

unfoldable pub multipliers : ℕ → ℕ
multipliers u =
    if nat_eq u b's'
    then 1
    else if nat_eq u b'm'
    then 60
    else if nat_eq u b'h'
    then 60 * 60
    else 24 * 60 * 60

-- `Number(digits)`, from the value of the digits before
unfoldable pub number : ℕ → List ℕ → ℕ
number n [] = n
number n (d ∷ ds) = number (10 * n + (d - b'0')) ds

-- `([smhd])?$` after the digits
unfoldable pub match_unit : List ℕ → Option (Option ℕ)
match_unit [] = some none
match_unit (u ∷ []) = if is_unit u then some (some u) else none
match_unit (u ∷ v ∷ rest) = none

-- `\d*([smhd])?$`: the digits and the unit
unfoldable pub match_rest : List ℕ → Option (List ℕ × Option ℕ)
match_rest [] = some ([], none)
match_rest (c ∷ rest) =
    let later = match_rest rest in
    if is_digit c
    then elim later [ none ↦ none | some m ↦ some (c ∷ m.0, m.1) ]
    else elim (match_unit (c ∷ rest)) [ none ↦ none | some u ↦ some ([], u) ]

-- `/^(\d+)([smhd])?$/.exec(duration)`
unfoldable pub match_duration : List ℕ → Option (List ℕ × Option ℕ)
match_duration [] = none
match_duration (c ∷ rest) = if is_digit c then match_rest (c ∷ rest) else none

unfoldable pub to_seconds : String → ℕ
to_seconds duration = elim (match_duration (codes duration)) [
  | none ↦ 3600
  | some m ↦ number 0 (m.0) * multipliers (get_or (m.1) b's')
]
