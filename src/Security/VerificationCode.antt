-- ===== src/Security/VerificationCode.antt =====
-- internal/security/verification_code.go: the codes of verification mails and their hashes. The
-- draw of `crypto/rand` and HMAC-SHA256 (`mac`) are arguments.
pub mod Digits
use stash_it_backend.Base.{
  ℕ, zero, suc, ◌+◌, ◌/◌, ◌%◌, Bool, List, [], ◌∷◌, ◌++◌, Option, none, some,
}
use stash_it_backend.Base.Text.{Text, text_eq}
use stash_it_backend.RateLimit.Key.{encode_hex}

abbrev pub verification_code_length : ℕ
verification_code_length = 6

abbrev pub verification_code_max : ℕ
verification_code_max = 1000000

-- `%0*d` of a number with at most as many digits as the width.
unfoldable pub pad_decimal : ℕ → ℕ → Text
pad_decimal zero n = []
pad_decimal (suc w) n = pad_decimal w (n / 10) ++ (b'0' + n % 10) ∷ []

-- `Generate`, on a number below `verificationCodeMax`, unless the draw fails.
unfoldable pub generate_code : Option ℕ → Option Text
unfolding pad_decimal
generate_code none = none
generate_code (some n) = some (pad_decimal verification_code_length n)

-- `Hash` and `Verify`.
unfoldable pub hash_code : (Text → Text → List ℕ) → Text → Text → Text
hash_code mac secret code = encode_hex (mac secret code)

unfoldable pub verify_code : (Text → Text → List ℕ) → Text → Text → Text → Bool
unfolding hash_code
verify_code mac secret code encoded = text_eq (hash_code mac secret code) encoded
