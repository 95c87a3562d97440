-- ===== src/Staff/Codes.antt =====
-- The invite codes of src/modules/staff/utils/invite-code.util.ts. A text is the list of its
-- characters; SHA-256 and the random numbers of the platform are parameters.
pub mod Spelling
use lit_server_nest.Prelude.{
  ℕ, zero, suc, ◌+◌, ◌-◌, Bool, true, false, ◌&&◌, ◌||◌, List, [], ◌∷◌, ◌++◌, map, String, leb,
  if◌then◌else◌,
}
use lit_server_nest.Token.Durations.{codes}

-- The capital letters and figures that are not easily taken for another.
unfoldable pub invite_code_alphabet : List ℕ
invite_code_alphabet = codes "23456789ABCDEFGHJKMNPQRSTUVWXYZ"

abbrev pub invite_code_length : ℕ
invite_code_length = 8

-- `text[i]`, which is `undefined`, the empty text under `join`, out of range
unfoldable pub char_at : List ℕ → ℕ → List ℕ
char_at [] i = []
char_at (c ∷ cs) zero = c ∷ []
char_at (c ∷ cs) (suc i) = char_at cs i

-- `Array.from({ length }, …).join('')`, with the numbers that `randomInt` draws in turn
unfoldable pub generate : ℕ → (ℕ → ℕ) → List ℕ
unfolding invite_code_alphabet char_at
generate zero random_int = []
generate (suc n) random_int = char_at invite_code_alphabet (random_int n) ++ generate n random_int

unfoldable pub generate_invite_code : (ℕ → ℕ) → List ℕ
unfolding generate
generate_invite_code random_int = generate invite_code_length random_int

-- `slice(0, n)` and `slice(n)`
abbrev pub take : ℕ → List ℕ → List ℕ
take zero cs = []
take (suc n) [] = []
take (suc n) (c ∷ cs) = c ∷ take n cs

abbrev pub drop : ℕ → List ℕ → List ℕ
drop zero cs = cs
drop (suc n) [] = []
drop (suc n) (c ∷ cs) = drop n cs

unfoldable pub format_invite_code : List ℕ → List ℕ
format_invite_code code = take 4 code ++ (b'-' ∷ drop 4 code)

abbrev pub is_lower : ℕ → Bool
is_lower c = leb b'a' c && leb c b'z'

-- `[0-9a-z]` without regard to case
abbrev pub is_alphanumeric : ℕ → Bool
is_alphanumeric c = leb b'0' c && leb c b'9' || leb b'A' c && leb c b'Z' || is_lower c

-- `toUpperCase` on such a character
abbrev pub to_upper : ℕ → ℕ
to_upper c = if is_lower c then c - 32 else c

unfoldable pub normalize_invite_code : List ℕ → List ℕ
normalize_invite_code [] = []
normalize_invite_code (c ∷ rest) =
    let later = normalize_invite_code rest in
    if is_alphanumeric c then to_upper c ∷ later else later

unfoldable pub hash_invite_code : (List ℕ → String) → List ℕ → String
unfolding normalize_invite_code
hash_invite_code sha256 input = sha256 (normalize_invite_code input)
