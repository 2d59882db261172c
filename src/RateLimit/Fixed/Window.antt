-- ===== src/RateLimit/Fixed/Window.antt =====
-- internal/ratelimit/limiter.go: what a window admits.
use Prim.Native.Nat.{min}
use stash_it_backend.Base.{
  length, ℕ, suc, ◌+◌, ◌-◌, ◌*◌, ◌/◌, ◌≤◌, ◌<◌, ◌≡◌, List, [], ◌∷◌, none, some, Result, ok, err,
  arith, bit,
}
use stash_it_backend.Base.Int.{ℤ, pos, leb_ℤ, to_ℕ}
use stash_it_backend.Base.Text.{Text}
use stash_it_backend.RateLimit.Redis.{Redis}
use stash_it_backend.RateLimit.Reply.{Policy, LimitError, delivered, validate, second, retry_after}
use stash_it_backend.RateLimit.Fixed.{Verdict, allow}
use stash_it_backend.RateLimit.Fixed.Calls.{counted, repaired, window_left, allow-view}

-- The moments of calls in one window: none before the last, all before the window ends.
abbrev pub Within : ℕ → ℕ → List ℕ → Type 0
Within now end [] = Unit {0}
Within now end (t ∷ ts) = (now ≤ t) × (t < end) × Within t end ts

abbrev pub admitted : Result LimitError Verdict → ℕ
admitted (ok v) = bit v.allowed
admitted (err e) = 0

module _ (redis : Redis) where
  open redis use {
    Store, view, incr, expire, pttl, view_later, incr_view, incr_reply, expire_view, pttl_reply,
    incr_other, expire_other,
  }

  -- The next call in a window that has counted `n` already: it is counted, admitted exactly while
  -- the count is within the budget, and leaves the end of the window where it was.
  pub allow_within :
      (now n d : ℕ) (k : Text) (p : Policy) (s : Store)
      → validate p ≡ none
      → view s now k ≡ some (record { value = pos (suc n); deadline = some d })
      → (view (allow redis delivered now k p s).0 now k
          ≡ some (record { value = pos (suc (suc n)); deadline = some d }))
        × ((allow redis delivered now k p s).1
            ≡ ok (record {
              count = pos (suc (suc n));
              allowed = leb_ℤ (pos (suc (suc n))) p.max;
              wait = retry_after (pos (d - now));
            }))
  unfolding repaired counted window_left
  allow_within now n d k p s valid e = ground (arith, allow-view redis now k p s valid)

  -- The first call: the window starts with it, not with a clock.
  pub allow_first :
      (now : ℕ) (k : Text) (p : Policy) (s : Store)
      → validate p ≡ none
      → view s now k ≡ none
      → (view (allow redis delivered now k p s).0 now k
          ≡ some (record { value = pos 1; deadline = some (now + to_ℕ p.window / second * 1000) }))
        × ((allow redis delivered now k p s).1
            ≡ ok (record {
              count = pos 1;
              allowed = leb_ℤ (pos 1) p.max;
              wait = retry_after (pos (now + to_ℕ p.window / second * 1000 - now));
            }))
  unfolding repaired counted window_left
  allow_first now k p s valid e = ground (arith, allow-view redis now k p s valid)

  -- A counter that releases took down to zero is started anew by the next call.
  pub allow_from_zero :
      (now d : ℕ) (k : Text) (p : Policy) (s : Store)
      → validate p ≡ none
      → view s now k ≡ some (record { value = pos 0; deadline = some d })
      → view (allow redis delivered now k p s).0 now k
        ≡ some (record { value = pos 1; deadline = some (now + to_ℕ p.window / second * 1000) })
  unfolding repaired counted
  allow_from_zero now d k p s valid e = ground (arith, allow-view redis now k p s valid)

  -- Calls of one subject that all reach Redis, in order, each at its moment: the store after them,
  -- and how many were admitted.
  pub admissions : Text → Policy → List ℕ → Store → Store × ℕ
  admissions k p [] s = (s, 0)
  admissions k p (now ∷ ts) s =
      let (s', r) = allow redis delivered now k p s in
      let (s'', n) = admissions k p ts s' in (s'', admitted r + n)

  Within-budget :
      (m n d now : ℕ) (k : Text) (w : ℤ) (ts : List ℕ) (s : Store)
      → validate (record { max = pos m; window = w }) ≡ none
      → Within now d ts
      → view s now k ≡ some (record { value = pos (suc n); deadline = some d })
      → (admissions k (record { max = pos m; window = w }) ts s).1 + min m (suc n)
        ≡ min m (suc n + length ts)
  unfolding admissions
  Within-budget m n d now k w [] s valid h e = omega arith
  Within-budget m n d now k w (t ∷ ts) s valid h e =
      omega (arith, one, Within-budget m (suc n) d t k w ts _ valid h.2 now_stored)
    where
      p : Policy
      p = record { max = pos m; window = w }

      found : view s t k ≡ some (record { value = pos (suc n); deadline = some d })
      found = ground (arith, view_later s now t k)

      now_stored :
          view (allow redis delivered t k p s).0 t k
          ≡ some (record { value = pos (suc (suc n)); deadline = some d })
      now_stored = (allow_within t n d k p s valid found).0

      one : admitted (allow redis delivered t k p s).1 + min m (suc n) ≡ min m (suc (suc n))
      one = ground (arith, (allow_within t n d k p s valid found).1)

  -- Of the calls of one subject that fall into the window which the first of them starts, as many
  -- are admitted as the budget allows, whatever their number and spacing.
  pub admissions_budget :
      (m now : ℕ) (k : Text) (w : ℤ) (ts : List ℕ) (s : Store)
      → validate (record { max = pos m; window = w }) ≡ none
      → view s now k ≡ none
      → Within now (now + to_ℕ w / second * 1000) ts
      → (admissions k (record { max = pos m; window = w }) (now ∷ ts) s).1 ≡ min m (suc (length ts))
  unfolding admissions
  admissions_budget m now k w ts s valid e h = omega (arith, one, rest)
    where
      p : Policy
      p = record { max = pos m; window = w }

      one : admitted (allow redis delivered now k p s).1 ≡ min m 1
      one = ground (arith, (allow_first now k p s valid e).1)

      rest :
          (admissions k p ts (allow redis delivered now k p s).0).1 + min m 1
          ≡ min m (1 + length ts)
      rest = Within-budget m 0 _ now k w ts _ valid h (allow_first now k p s valid e).0
