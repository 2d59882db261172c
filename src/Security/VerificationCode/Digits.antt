-- ===== src/Security/VerificationCode/Digits.antt =====
-- internal/security/verification_code.go: what a generated code looks like.
use stash_it_backend.Base.{
  ℕ, zero, suc, ◌+◌, ◌-◌, ◌*◌, ◌/◌, ◌%◌, ◌^◌, ◌≤◌, ◌<◌, ◌≡◌, refl, subst, arith, [], ◌∷◌, ◌++◌, All,
  length, length-append, some,
}
use stash_it_backend.Base.Text.{Text}
use stash_it_backend.Security.VerificationCode.{
  pad_decimal, generate_code, verification_code_length, verification_code_max,
}
use native.Mathlib.Numerals.{unary_clauses}

-- The number that a text of digits stands for.
pub decimal_from : ℕ → Text → ℕ
decimal_from n [] = n
decimal_from n (b ∷ bs) = decimal_from (n * 10 + (b - b'0')) bs

abbrev pub IsDigit : ℕ → Type 0
IsDigit b = (b'0' ≤ b) × (b ≤ b'9')

decimal-append :
    (xs : Text) (n b : ℕ) → decimal_from n (xs ++ b ∷ []) ≡ decimal_from n xs * 10 + (b - b'0')
unfolding decimal_from
decimal-append [] n b = refl
decimal-append (x ∷ xs) n b = decimal-append xs _ b

All-append : (xs : Text) (b : ℕ) → All IsDigit xs → IsDigit b → All IsDigit (xs ++ b ∷ [])
All-append [] b a h = (h, tt)
All-append (x ∷ xs) b a h = (a.0, All-append xs b a.1 h)

pad_decimal-digits : (w n : ℕ) → All IsDigit (pad_decimal w n)
unfolding pad_decimal
pad_decimal-digits zero n = tt
pad_decimal-digits (suc w) n =
    All-append _ _ (pad_decimal-digits w (n / 10)) (omega arith, omega arith)

pad_decimal-length : (w n : ℕ) → length (pad_decimal w n) ≡ w
unfolding pad_decimal
pad_decimal-length zero n = refl
pad_decimal-length (suc w) n = omega (
  arith,
  length-append (pad_decimal w (n / 10)) ((b'0' + n % 10) ∷ []),
  pad_decimal-length w (n / 10),
)

pad_decimal-value : (w n : ℕ) → n < 10 ^ w → decimal_from 0 (pad_decimal w n) ≡ n
unfolding pad_decimal decimal_from
pad_decimal-value zero n h = omega (arith, simp unary_clauses at h)
pad_decimal-value (suc w) n h =
    let less : n < 10 ^ w * 10 = simp unary_clauses at h in
    let rest = pad_decimal-value w (n / 10) (omega (arith, less)) in
    omega (arith, rest, decimal-append (pad_decimal w (n / 10)) 0 (b'0' + n % 10))

-- A generated code has six digits, and is the drawn number: different draws give different codes.
pub generate_code-digits :
    (n : ℕ) (code : Text)
    → n < verification_code_max
    → generate_code (some n) ≡ some code
    → (length code ≡ verification_code_length) × All IsDigit code × (decimal_from 0 code ≡ n)
unfolding generate_code
generate_code-digits n code h e =
    let same : pad_decimal verification_code_length n ≡ code = cc in
    subst (λ t. (length t ≡ verification_code_length) × All IsDigit t × (decimal_from 0 t ≡ n)) same
      (
        pad_decimal-length verification_code_length n,
        pad_decimal-digits verification_code_length n,
        pad_decimal-value verification_code_length n h,
      )
