-- ===== src/RateLimit/Sliding/Waits.antt =====
-- internal/ratelimit/sliding.go: how long a refused caller is told to wait.
use stash_it_backend.Base.{
  ℕ, ◌+◌, ◌≤◌, ◌<◌, ◌≡◌, sym, ap, ◌∙◌, List, [], ◌∷◌, true, false, none, some, ok, arith, inl, inr,
  Bool-cases, length, All, All-map, count_where, count_where-All, count_where-le-length,
  All-keep_self, length-keep,
}
use stash_it_backend.Base.Int.{ℤ, pos, negsuc, leb_ℤ}
use stash_it_backend.Base.Text.{Text}
use stash_it_backend.RateLimit.SortedSets.{SortedSets, Entry, Sorted, first_score}
use stash_it_backend.RateLimit.Reply.{Policy, delivered, validate, retry_after}
use stash_it_backend.RateLimit.Sliding.{
  SlidingVerdict, sliding_allow, sliding_verdict, window_ms, admit_to_sliding_window, prune,
  pruned_count, script_wait,
}
use stash_it_backend.RateLimit.Sliding.Log.{is_live}
use stash_it_backend.RateLimit.Sliding.Refinement.{prune-items, pruned_count-live, window_ms-pos}

-- `wait` more milliseconds are needed until one of the entries leaves the window, and no fewer.
pub record FreesAfter (window now : ℕ) (es : List Entry) (wait : ℕ) : Type 0 where
  pub full_until :
      (later : ℕ)
      → now ≤ later
      → later < now + wait
      → count_where (is_live window later) es ≡ length es
  pub free_at : count_where (is_live window (now + wait)) es < length es

script_wait-FreesAfter :
    (window now : ℕ) (es : List Entry)
    → 0 < length es
    → Sorted es
    → All (λ e. is_live window now e ≡ true) es
    → FreesAfter window now es (script_wait (first_score es) window now)
unfolding script_wait count_where
script_wait-FreesAfter window now [] h sorted live = absurd (omega arith)
script_wait-FreesAfter window now (e ∷ es) h sorted live = record {
  full_until = λ later le lt.
      count_where-All (is_live window later) (e ∷ es)
        (ground (arith, live.0), All-map es (λ d f. ground (arith, live.0)) sorted.0);
  free_at = ground (arith, live.0, count_where-le-length (is_live window (e.score + window)) es);
}

module _ (redis : SortedSets) where
  open redis use {Store, items, zfirst, items_sorted, zfirst_reply}

  pruned_length :
      (now window : ℕ) (k : Text) (s : Store)
      → 1 ≤ window
      → length (items (prune redis now k window s) now k) ≡ pruned_count redis now k window s
  pruned_length now window k s h =
      ap length (prune-items redis now window k s h)
      ∙ length-keep (is_live window now) (items s now k)
      ∙ sym (pruned_count-live redis now window k s)

  prune-FreesAfter :
      (now window : ℕ) (k : Text) (s : Store)
      → 1 ≤ window
      → 0 < pruned_count redis now k window s
      → let s' = prune redis now k window s in
        FreesAfter window now (items s' now k) (script_wait (zfirst now k s') window now)
  prune-FreesAfter now window k s h some_held =
      rw (zfirst_reply (prune redis now k window s) now k) (
        script_wait-FreesAfter window now _ (omega (arith, pruned_length now window k s h))
          (items_sorted _ now k)
          (rw (prune-items redis now window k s h)
            (All-keep_self (is_live window now) (items s now k))))

  max_positive : (p : Policy) (n : ℕ) → validate p ≡ none → leb_ℤ p.max (pos n) ≡ true → 0 < n
  unfolding validate
  max_positive p n valid full = positive p.max (ground (arith, valid)) full
    where
      positive : (m : ℤ) → leb_ℤ m (pos 0) ≡ false → leb_ℤ m (pos n) ≡ true → 0 < n
      positive (pos m) h g = ground arith
      positive (negsuc m) h g = cc

  -- A refused caller is told a wait, in milliseconds before it is rounded up to seconds, at which,
  -- if nothing else is admitted, the subject has fewer live entries than the count of the refusal,
  -- and before which it has exactly that count: the wait is no shorter and no longer than needed.
  pub sliding_wait :
      (now : ℕ) (k member : Text) (p : Policy) (s : Store) (v : SlidingVerdict)
      → validate p ≡ none
      → (sliding_allow redis delivered now k (some member) p s).1 ≡ ok v
      → v.allowed ≡ false
      → let es = items (sliding_allow redis delivered now k (some member) p s).0 now k in
        (ms : ℕ) × (v.wait ≡ retry_after (pos ms))
        × (length es ≡ v.count)
        × FreesAfter (window_ms p) now es ms
  unfolding sliding_allow sliding_verdict admit_to_sliding_window
  sliding_wait now k member p s v valid answered refused =
      elim (Bool-cases (leb_ℤ p.max (pos (pruned_count redis now k (window_ms p) s)))) [
        | inl full ↦
            rw (valid, sliding_allow, full, admit_to_sliding_window)
              (
                script_wait (zfirst now k (prune redis now k (window_ms p) s)) (window_ms p) now,
                ground (arith, full, valid, answered),
                pruned_length now (window_ms p) k s (window_ms-pos redis p valid)
                    ∙ ground (arith, full, valid, answered),
                prune-FreesAfter now (window_ms p) k s (window_ms-pos redis p valid)
                    (max_positive p _ valid full),
              )
        | inr room ↦ absurd (ground (arith, room, valid, answered, refused))
      ]
