-- ===== src/Staff/Codes/Spelling.antt =====
-- The ways to write down an invite code of src/modules/staff/utils/invite-code.util.ts.
use lit_server_nest.Prelude.{
  ℕ, zero, suc, ◌+◌, ◌<◌, ◌≤◌, ◌≡◌, refl, ap, true, false, List, [], ◌∷◌, ◌++◌, All, length, arith,
}
use lit_server_nest.Staff.Codes.{
  invite_code_alphabet, char_at, generate, generate_invite_code, take, drop, format_invite_code,
  is_lower, is_alphanumeric, normalize_invite_code,
}

-- `typed` is `code`, some letters in lower case and other characters than letters and figures between.
pub data Spelling : List ℕ → List ℕ → Type 0 where
  done : Spelling [] []
  same : (c : ℕ) (code typed : List ℕ) → Spelling code typed → Spelling (c ∷ code) (c ∷ typed)
  lower :
      (c : ℕ) (code typed : List ℕ)
      → (b'A' ≤ c) × (c ≤ b'Z')
      → Spelling code typed
      → Spelling (c ∷ code) ((c + 32) ∷ typed)
  between :
      (c : ℕ) (code typed : List ℕ)
      → is_alphanumeric c ≡ false
      → Spelling code typed
      → Spelling code (c ∷ typed)

-- A capital letter or a figure.
abbrev pub IsPlain : ℕ → Type 0
IsPlain c = (is_alphanumeric c ≡ true) × (is_lower c ≡ false)

pub normalize-Spelling :
    {code typed : List ℕ}
    → Spelling code typed
    → All IsPlain code
    → normalize_invite_code typed ≡ code
unfolding normalize_invite_code
normalize-Spelling done h = refl
normalize-Spelling (same c code typed s) h =
    rw (h.0.0, h.0.1) (ap (λ (t : List ℕ). c ∷ t) (normalize-Spelling s h.1))
normalize-Spelling (lower c code typed up s) h =
    let lower_case : is_lower (c + 32) ≡ true = ground arith in
    rw (lower_case) (ground (arith, normalize-Spelling s h.1))
normalize-Spelling (between c code typed n s) h = rw n (normalize-Spelling s h)

Spelling_refl : (code : List ℕ) → Spelling code code
Spelling_refl [] = done
Spelling_refl (c ∷ code) = same c code code (Spelling_refl code)

Spelling-dash : (n : ℕ) (code : List ℕ) → Spelling code (take n code ++ (b'-' ∷ drop n code))
Spelling-dash zero code = between b'-' code code refl (Spelling_refl code)
Spelling-dash (suc n) [] = between b'-' [] [] refl done
Spelling-dash (suc n) (c ∷ code) = same c code _ (Spelling-dash n code)

pub Spelling-format : (code : List ℕ) → Spelling code (format_invite_code code)
unfolding format_invite_code
Spelling-format code = Spelling-dash 4 code

char_at-All :
    {P : ℕ → Type 0} (cs : List ℕ) (i : ℕ)
    → All P cs
    → i < length cs
    → (c : ℕ) × (char_at cs i ≡ c ∷ []) × P c
unfolding char_at
char_at-All [] i h short = absurd (omega arith)
char_at-All (c ∷ cs) zero h short = (c, refl, h.0)
char_at-All (c ∷ cs) (suc i) h short = char_at-All cs i h.1 (omega arith)

alphabet-IsPlain : All IsPlain invite_code_alphabet
unfolding invite_code_alphabet
alphabet-IsPlain = ground arith

in_range : (i : ℕ) → i < 31 → i < length invite_code_alphabet
unfolding invite_code_alphabet
in_range i h = h

generate-IsPlain :
    (n : ℕ) (random_int : ℕ → ℕ)
    → ((i : ℕ) → random_int i < 31)
    → All IsPlain (generate n random_int) × (length (generate n random_int) ≡ n)
unfolding generate
generate-IsPlain zero random_int h = (tt, refl)
generate-IsPlain (suc n) random_int h =
    let (c, e, p) =
      char_at-All {P = IsPlain} invite_code_alphabet (random_int n) alphabet-IsPlain
        (in_range (random_int n) (h n)) in
    let (later, len) = generate-IsPlain n random_int h in rw e ((p, later), omega (arith, len))

-- Where `randomInt` draws numbers below the length of the alphabet, an invite code has eight
-- characters. The form in which it is handed out is one of its spellings, and every spelling (small
-- letters, and anything but letters and figures between) is normalised to the code.
pub normalize-generate_invite_code :
    (random_int : ℕ → ℕ)
    → ((i : ℕ) → random_int i < 31)
    → (length (generate_invite_code random_int) ≡ 8)
      × Spelling
          (generate_invite_code random_int)
          (format_invite_code (generate_invite_code random_int))
      × ((typed : List ℕ)
          → Spelling (generate_invite_code random_int) typed
          → normalize_invite_code typed ≡ generate_invite_code random_int)
unfolding generate_invite_code
normalize-generate_invite_code random_int h =
    let (plain, len) = generate-IsPlain 8 random_int h in
    (len, Spelling-format _, λ typed s. normalize-Spelling s plain)
