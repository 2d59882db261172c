-- ===== src/RateLimit/Sliding/Refinement.antt =====
-- internal/ratelimit/sliding.go: the sorted set of a key implements the log of its admissions.
use stash_it_backend.Base.{
  ℕ, ◌+◌, ◌/◌, ◌≤◌, ◌≡◌, refl, ap, ◌∙◌, List, ◌∷◌, true, none, some, ok, if◌then◌else◌, arith, inl,
  inr, Bool-cases, length, All, keep, count_where, length-keep,
}
use stash_it_backend.Base.Int.{ℤ, pos, negsuc, leb_ℤ, to_ℕ, sub_ℕ, is_one}
use stash_it_backend.Base.Text.{Text}
use stash_it_backend.RateLimit.SortedSets.{SortedSets, Entry, kept_expiry}
use stash_it_backend.RateLimit.Reply.{Policy, delivered, validate, second}
use stash_it_backend.RateLimit.Sliding.{
  SlidingVerdict, admit_to_sliding_window, prune, pruned_count, sliding_allow, window_ms,
  millisecond, sliding_verdict,
}
use stash_it_backend.RateLimit.Sliding.Log.{
  is_live, prune-is_live, Holds, Holds-later, Holds-pruned, Holds-added, NotNamed, admission,
  log_allow,
}

module _ (redis : SortedSets) where
  open redis use {
    Store, items, expiry, zremrangebyscore, zcard, pexpire, zfirst, zadd, items_sorted, items_later,
    expiry_later, zremrangebyscore_items, zremrangebyscore_expiry, zcard_reply, pexpire_items,
    pexpire_expiry, zfirst_reply, zadd_items, zadd_expiry,
  }

  pub prune-items :
      (now window : ℕ) (k : Text) (s : Store)
      → 1 ≤ window
      → items (prune redis now k window s) now k ≡ keep (is_live window now) (items s now k)
  unfolding prune
  prune-items now window k s h =
      pexpire_items _ now k window h
      ∙ zremrangebyscore_items s now k (sub_ℕ now window)
      ∙ prune-is_live window now (items s now k)

  pub pruned_count-live :
      (now window : ℕ) (k : Text) (s : Store)
      → pruned_count redis now k window s ≡ count_where (is_live window now) (items s now k)
  unfolding pruned_count
  pruned_count-live now window k s =
      zcard_reply _ now k
      ∙ ap length (zremrangebyscore_items s now k (sub_ℕ now window))
      ∙ ap length (prune-is_live window now (items s now k))
      ∙ length-keep (is_live window now) (items s now k)

  abbrev pub HoldsAt : ℕ → ℕ → Text → Store → List Entry → Type 0
  HoldsAt window now k s log = Holds window now (items s now k) (expiry s now k) log

  pub HoldsAt-later :
      (window now later : ℕ) (k : Text) (s : Store) (log : List Entry)
      → now ≤ later
      → HoldsAt window now k s log
      → HoldsAt window later k s log
  HoldsAt-later window now later k s log h r =
      rw (items_later s now later k h, expiry_later s now later k h)
        (Holds-later window now later (items s now k) (expiry s now k) log h r)

  pub prune-expiry :
      (now window : ℕ) (k : Text) (s : Store)
      → 1 ≤ window
      → expiry (prune redis now k window s) now k
        ≡ kept_expiry (keep (is_live window now) (items s now k)) (some (now + window))
  unfolding prune
  prune-expiry now window k s h =
      pexpire_expiry _ now k window h
      ∙ ap (λ es. kept_expiry es (some (now + window)))
          (zremrangebyscore_items s now k (sub_ℕ now window)
            ∙ prune-is_live window now (items s now k))

  prune-HoldsAt :
      (now window : ℕ) (k : Text) (s : Store) (log : List Entry)
      → 1 ≤ window
      → HoldsAt window now k s log
      → HoldsAt window now k (prune redis now k window s) log
  prune-HoldsAt now window k s log h r =
      rw (prune-items now window k s h, prune-expiry now window k s h)
        (Holds-pruned window now (items s now k) (expiry s now k) log r)

  live_count :
      (now window : ℕ) (k : Text) (s : Store) (log : List Entry)
      → HoldsAt window now k s log
      → pruned_count redis now k window s ≡ count_where (is_live window now) log
  live_count now window k s log r =
      pruned_count-live now window k s ∙ r.covers (is_live window now) (λ e h. h)

  zadd-HoldsAt :
      (now window : ℕ) (k member : Text) (s : Store) (log : List Entry)
      → 1 ≤ window
      → All (NotNamed member) log
      → HoldsAt window now k s log
      → HoldsAt window now k
          (zadd now k now member (prune redis now k window s))
          (admission now member ∷ log)
  zadd-HoldsAt now window k member s log h fresh r =
      let pruned = prune-HoldsAt now window k s log h r in
      rw
        (
          zadd_items _ now k now member (pruned.known member fresh),
          zadd_expiry (prune redis now k window s) now k now member,
          prune-expiry now window k s h,
          prune-items now window k s h,
        )
        (Holds-added window now member _ log
          (rw (prune-items now window k s h, prune-expiry now window k s h) at pruned))

  admit-log :
      (now window : ℕ) (k : Text) (max : ℤ) (member : Text) (s : Store) (log : List Entry)
      → 1 ≤ window
      → All (NotNamed member) log
      → HoldsAt window now k s log
      → let r = admit_to_sliding_window redis now k window max member s in
        let l = log_allow window max now member log in
        HoldsAt window now k r.0 l.0 × (r.1.0 ≡ l.2) × (is_one r.1.1 ≡ l.1)
  unfolding admit_to_sliding_window log_allow
  admit-log now window k max member s log h fresh r =
      rw (live_count now window k s log r, admit_to_sliding_window)
        (elim (Bool-cases (leb_ℤ max (pos (count_where (is_live window now) log)))) [
          | inl full ↦ rw full (prune-HoldsAt now window k s log h r, refl, refl)
          | inr free ↦ rw free (zadd-HoldsAt now window k member s log h fresh r, refl, refl)
        ])

  pub window_ms-pos : (p : Policy) → validate p ≡ none → 1 ≤ window_ms p
  unfolding validate
  window_ms-pos p h = positive p.window (ground arith)
    where
      positive : (w : ℤ) → leb_ℤ (pos second) w ≡ true → 1 ≤ to_ℕ w / millisecond
      positive (pos w) h = ground arith
      positive (negsuc w) h = cc

  -- The sliding-window limiter implements the log of admissions: a call under a valid policy, with
  -- a member that was not drawn before, at any moment from the last call on, is admitted exactly
  -- when fewer than the maximum of all admissions so far lie inside the window, reports the log's
  -- count, records itself in the log if it was admitted and nothing else, and hands out its member
  -- exactly then. The expiry of the key does not show.
  pub sliding_allow-log :
      (before now : ℕ) (k member : Text) (p : Policy) (s : Store) (log : List Entry)
      → validate p ≡ none
      → before ≤ now
      → All (NotNamed member) log
      → HoldsAt (window_ms p) before k s log
      → let (s', r) = sliding_allow redis delivered now k (some member) p s in
        let (log', allowed, count) = log_allow (window_ms p) p.max now member log in
        HoldsAt (window_ms p) now k s' log'
        × (v : SlidingVerdict) × (r ≡ ok v)
        × (v.allowed ≡ allowed)
        × (v.count ≡ count)
        × (v.admission ≡ (if allowed then some member else none))
  unfolding sliding_allow sliding_verdict
  sliding_allow-log before now k member p s log valid le fresh r =
      let (held, counted, decided) =
        admit-log now (window_ms p) k p.max member s log (window_ms-pos p valid) fresh
          (HoldsAt-later (window_ms p) before now k s log le r) in
      rw (valid, sliding_allow)
        (held, _, refl, decided, counted, ap (λ a. if a then some member else none) decided)
