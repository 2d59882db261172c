-- ===== src/RateLimit/Key.antt =====
-- internal/ratelimit/limiter.go and sliding.go: the Redis key of a subject.
--
-- HMAC-SHA256 is the parameter `mac`, from a secret and a message to bytes.
use stash_it_backend.Base.{
  ℕ, ◌+◌, ◌-◌, ◌/◌, ◌%◌, ◌<◌, ◌≡◌, ◌≢◌, refl, List, [], ◌∷◌, ◌++◌, arith, subst, All, ltb,
  if◌then◌else◌,
}
use stash_it_backend.Base.Text.{Text, text}

abbrev colon : ℕ
colon = b':'

unfoldable pub hex_digit : ℕ → ℕ
hex_digit n = if ltb n 10 then b'0' + n else b'a' + n - 10

-- `hex.EncodeToString`.
unfoldable pub encode_hex : List ℕ → Text
encode_hex [] = []
encode_hex (b ∷ bs) = hex_digit (b / 16) ∷ hex_digit (b % 16) ∷ encode_hex bs

-- `fmt.Sprintf("%s:%s:%s", …)`.
unfoldable pub join_key : Text → Text → Text → Text
join_key prefix namespace digest = prefix ++ (colon ∷ (namespace ++ (colon ∷ digest)))

unfoldable pub derive_key : (Text → Text → List ℕ) → Text → Text → Text → Text → Text
derive_key mac prefix namespace secret subject =
    join_key prefix namespace (encode_hex (mac secret subject))

abbrev pub key_prefix : Text
key_prefix = text "rl"

abbrev pub sliding_key_prefix : Text
sliding_key_prefix = text "rlw"

abbrev IsByte : ℕ → Type 0
IsByte b = b < 256

abbrev pub AreBytes : List ℕ → Type 0
AreBytes = All IsByte

abbrev NotColon : ℕ → Type 0
NotColon c = c ≢ colon

hex_digit-injective : (m n : ℕ) → m < 16 → n < 16 → hex_digit m ≡ hex_digit n → m ≡ n
unfolding hex_digit
hex_digit-injective m n h k e = ground arith

hex_digit-ne-colon : (n : ℕ) → hex_digit n ≢ colon
unfolding hex_digit
hex_digit-ne-colon n = ground arith

encode_hex-NotColon : (bs : List ℕ) → All NotColon (encode_hex bs)
unfolding encode_hex
encode_hex-NotColon [] = tt
encode_hex-NotColon (b ∷ bs) =
    (hex_digit-ne-colon (b / 16), (hex_digit-ne-colon (b % 16), encode_hex-NotColon bs))

encode_hex-injective :
    (bs cs : List ℕ) → AreBytes bs → AreBytes cs → encode_hex bs ≡ encode_hex cs → bs ≡ cs
unfolding encode_hex
encode_hex-injective [] [] h k e = refl
encode_hex-injective [] (c ∷ cs) h k e = cc
encode_hex-injective (b ∷ bs) [] h k e = cc
encode_hex-injective (b ∷ bs) (c ∷ cs) h k e = ground (
  arith,
  hex_digit-injective (b / 16) (c / 16),
  hex_digit-injective (b % 16) (c % 16),
  encode_hex-injective bs cs,
)

-- A text with no colon cannot be reached past a colon.
no_colon_inside : (b y : Text) → All NotColon (b ++ (colon ∷ y)) → ⊥
no_colon_inside [] y h = h.0 refl
no_colon_inside (c ∷ b) y h = no_colon_inside b y h.1

split_last :
    (a b x y : Text)
    → All NotColon x
    → All NotColon y
    → a ++ (colon ∷ x) ≡ b ++ (colon ∷ y)
    → (a ≡ b) × (x ≡ y)
split_last [] [] x y h k e = (refl, cc)
split_last [] (c ∷ b) x y h k e = absurd (no_colon_inside b y (subst (All NotColon) (cc) h))
split_last (c ∷ a) [] x y h k e = absurd (no_colon_inside a x (subst (All NotColon) (cc) k))
split_last (c ∷ a) (d ∷ b) x y h k e =
    let r : (a ≡ b) × (x ≡ y) = split_last a b x y h k (cc) in (ground (arith, r.0), r.1)

drop_prefix : (p : Text) {a b : Text} → p ++ (colon ∷ a) ≡ p ++ (colon ∷ b) → a ≡ b
drop_prefix [] e = cc
drop_prefix (c ∷ p) e = drop_prefix p (cc)

-- Two keys of one limiter are equal only for one namespace and one digest, if the digests are
-- bytes: neither part can be read as a part of the other.
pub derive_key-injective :
    (mac : Text → Text → List ℕ) (prefix secret namespace namespace' subject subject' : Text)
    → AreBytes (mac secret subject)
    → AreBytes (mac secret subject')
    → derive_key mac prefix namespace secret subject
      ≡ derive_key mac prefix namespace' secret subject'
    → (namespace ≡ namespace') × (mac secret subject ≡ mac secret subject')
unfolding derive_key join_key
derive_key-injective mac prefix secret namespace namespace' subject subject' h k e =
    let r : (namespace ≡ namespace')
        × (encode_hex (mac secret subject) ≡ encode_hex (mac secret subject')) =
      split_last namespace namespace' _ _ (encode_hex-NotColon _) (encode_hex-NotColon _)
        (drop_prefix prefix e) in
    (r.0, encode_hex-injective _ _ h k r.1)

-- A key of the fixed-window limiter is never a key of the sliding-window limiter.
pub derive_key-ne-sliding :
    (mac mac' : Text → Text → List ℕ) (namespace namespace' secret secret' subject subject' : Text)
    → derive_key mac key_prefix namespace secret subject
      ≢ derive_key mac' sliding_key_prefix namespace' secret' subject'
unfolding derive_key join_key
derive_key-ne-sliding mac mac' n n' s s' u u' e = ground arith
