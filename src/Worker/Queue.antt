-- ===== src/Worker/Queue.antt =====
-- internal/worker/queue/backoff.go and constants.go: the delay before an enrichment task is tried
-- again, in nanoseconds, before the jitter.
use native.Mathlib.Nat.{pow-succ', mul_assoc}
use stash_it_backend.Base.{
  ℕ, zero, suc, ◌*◌, ◌^◌, ◌≤◌, ◌≡◌, ap, ◌∙◌, sym, Bool-cases, inl, inr, ltb, leb, if◌then◌else◌,
  arith,
}

abbrev pub enrichment_retry_base_delay : ℕ
enrichment_retry_base_delay = 30 * 1000000000

abbrev pub enrichment_retry_max_delay : ℕ
enrichment_retry_max_delay = 30 * 60 * 1000000000

-- The loop: `n` is the number of rounds that are left.
pub double : ℕ → ℕ → ℕ
double zero delay =
    if ltb enrichment_retry_max_delay delay then enrichment_retry_max_delay else delay
double (suc n) delay =
    let rest = double n (delay * 2) in
    if leb enrichment_retry_max_delay delay then enrichment_retry_max_delay else rest

-- `EnrichmentRetryDelay`, as it is handed to the jitter.
unfoldable pub enrichment_retry_delay : ℕ → ℕ
unfolding double
enrichment_retry_delay n = double n enrichment_retry_base_delay

pow-pos : (n : ℕ) → 1 ≤ 2 ^ n
pow-pos zero = omega arith
pow-pos (suc n) = omega (arith, pow-succ' 2 n, pow-pos n)

grows : (d m : ℕ) → 1 ≤ m → d ≤ d * m
grows d zero h = ground arith
grows d (suc m) h = omega arith

twice : (d n : ℕ) → d * 2 * 2 ^ n ≡ d * 2 ^ suc n
twice d n = mul_assoc d 2 (2 ^ n) ∙ ap (λ x. d * x) (sym (pow-succ' 2 n))

double_closed :
    (n d : ℕ)
    → double n d ≡ (
        if ltb enrichment_retry_max_delay (d * 2 ^ n)
        then enrichment_retry_max_delay
        else d * 2 ^ n)
unfolding double
double_closed zero d =
    let e : d ≡ d * 2 ^ 0 = omega arith in
    ap (λ x. if ltb enrichment_retry_max_delay x then enrichment_retry_max_delay else x) e
double_closed (suc n) d = elim (Bool-cases (leb enrichment_retry_max_delay d)) [
  | inl e ↦ ground (arith, pow-succ' 2 n, pow-pos n, grows d (2 ^ suc n) (pow-pos (suc n)))
  | inr e ↦ rw e (
      double_closed n (d * 2)
      ∙ ap (λ x. if ltb enrichment_retry_max_delay x then enrichment_retry_max_delay else x)
          (twice d n))
]

-- The delay before the n-th retry is the base doubled n times, capped at the maximum, however
-- large the number of retries is.
pub enrichment_retry_delay_closed :
    (n : ℕ)
    → enrichment_retry_delay n ≡ (
        if ltb enrichment_retry_max_delay (enrichment_retry_base_delay * 2 ^ n)
        then enrichment_retry_max_delay
        else enrichment_retry_base_delay * 2 ^ n)
unfolding enrichment_retry_delay
enrichment_retry_delay_closed n = double_closed n enrichment_retry_base_delay
