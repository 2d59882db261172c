-- ===== src/RateLimit/Sliding/Bounds.antt =====
-- internal/ratelimit/sliding.go: how many admissions any window holds.
use stash_it_backend.Base.{
  ℕ, ◌≤◌, ◌<◌, ◌≡◌, refl, ap, ◌∙◌, List, [], ◌∷◌, Bool, true, false, ◌&&◌, none, some, Result, ok,
  err, if◌then◌else◌, leb, arith, bit, inl, inr, Bool-cases, All, All-map, count_where,
  count_where_mono,
}
use stash_it_backend.Base.Int.{ℤ, pos}
use stash_it_backend.Base.Text.{Text}
use stash_it_backend.RateLimit.SortedSets.{SortedSets, Entry}
use stash_it_backend.RateLimit.Reply.{Policy, LimitError, delivered, validate}
use stash_it_backend.RateLimit.Sliding.{SlidingVerdict, sliding_allow, window_ms}
use stash_it_backend.RateLimit.Sliding.Log.{is_live, admission, NotNamed, log_allow}
use stash_it_backend.RateLimit.Sliding.Refinement.{HoldsAt, sliding_allow-log}

-- An admission lies in the window that ends at a moment: not after it, and later than a window
-- before it.
abbrev pub in_window : ℕ → ℕ → Entry → Bool
in_window window end e = leb e.score end && is_live window end e

-- At most `m` admissions in every window, and none after the moment.
record Bounded (window m now : ℕ) (log : List Entry) : Type 0 where
  pub past : All (λ e. e.score ≤ now) log
  pub few : (end : ℕ) → count_where (in_window window end) log ≤ m

in_window-live :
    (window end : ℕ) (log : List Entry)
    → All (λ e. e.score ≤ end) log
    → count_where (in_window window end) log ≡ count_where (is_live window end) log
unfolding count_where
in_window-live window end [] h = refl
in_window-live window end (e ∷ log) h = ground (arith, in_window-live window end log h.1)

Bounded-admission :
    (window m before now : ℕ) (member : Text) (log : List Entry)
    → before ≤ now
    → count_where (is_live window now) log < m
    → Bounded window m before log
    → Bounded window m now (admission now member ∷ log)
unfolding count_where
Bounded-admission window m before now member log le room r = record {
  past = (omega arith, All-map log (λ e h. omega arith) r.past);
  few = λ end. elim (Bool-cases (leb now end)) [
    | inl after ↦ omega (
      arith,
      in_window-live window end log (All-map log (λ e h. ground (arith, after)) r.past),
      count_where_mono (is_live window end) (is_live window now) log (λ e h. ground (arith, after)),
      bit_le (in_window window end (admission now member)),
    )
    | inr earlier ↦ ground (arith, r.few end)
  ];
}
  where
    bit_le : (b : Bool) → bit b ≤ 1
    bit_le b = ground arith

Bounded-log_allow :
    (window m before now : ℕ) (member : Text) (log : List Entry)
    → before ≤ now
    → Bounded window m before log
    → Bounded window m now (log_allow window (pos m) now member log).0
unfolding log_allow
Bounded-log_allow window m before now member log le r =
    elim (Bool-cases (leb m (count_where (is_live window now) log))) [
      | inl full ↦
          rw (full, log_allow)
            (record { past = All-map log (λ e h. omega arith) r.past; few = r.few })
      | inr room ↦
          rw (room, log_allow)
            (Bounded-admission window m before now member log le (ground (arith, room)) r)
    ]

log_allow-next :
    (window : ℕ) (max : ℤ) (now : ℕ) (member : Text) (log : List Entry)
    → (if (log_allow window max now member log).1 then admission now member ∷ log else log)
      ≡ (log_allow window max now member log).0
unfolding log_allow
log_allow-next window max now member log = ground arith

-- The moments and the drawn members of some calls: no moment before the last call, and no member
-- drawn twice.
abbrev pub Calls : ℕ → List Entry → List Entry → Type 0
Calls before drawn [] = Unit {0}
Calls before drawn (e ∷ es) =
    (before ≤ e.score) × All (NotNamed e.member) drawn × Calls e.score (e ∷ drawn) es

abbrev pub admitted : Result LimitError SlidingVerdict → Bool
admitted (ok v) = v.allowed
admitted (err e) = false

module _ (redis : SortedSets) where
  open redis use {Store, items}

  -- Calls of one subject that all reach Redis, in order: the store after them, and the admissions,
  -- latest first, on top of those of earlier calls.
  unfoldable pub run : Text → Policy → List Entry → Store → List Entry → Store × List Entry
  run k p [] s log = (s, log)
  run k p (e ∷ es) s log =
      let (s', r) = sliding_allow redis delivered e.score k (some e.member) p s in
      run k p es s' (if admitted r then e ∷ log else log)

  -- After one call the admissions are the log of the specification.
  run-step :
      (p : Policy) (before : ℕ) (k : Text) (e : Entry) (s : Store) (log : List Entry)
      → validate p ≡ none
      → before ≤ e.score
      → All (NotNamed e.member) log
      → HoldsAt redis (window_ms p) before k s log
      → let (s', r) = sliding_allow redis delivered e.score k (some e.member) p s in
        let log' = if admitted r then e ∷ log else log in
        (log' ≡ (log_allow (window_ms p) p.max e.score e.member log).0)
        × HoldsAt redis (window_ms p) e.score k s' log'
  run-step p before k e s log valid le fresh held =
      let (held', v, answered, decided, _, _) =
        sliding_allow-log redis before e.score k e.member p s log valid le fresh held in
      let log_eq =
        ap (λ b. if b then e ∷ log else log) (ap admitted answered ∙ decided)
        ∙ log_allow-next (window_ms p) p.max e.score e.member log in
      (log_eq, rw log_eq held')

  run-Bounded :
      (m before : ℕ) (k : Text) (p : Policy) (es drawn : List Entry) (s : Store) (log : List Entry)
      → p.max ≡ pos m
      → validate p ≡ none
      → Calls before drawn es
      → ((member : Text) → All (NotNamed member) drawn → All (NotNamed member) log)
      → HoldsAt redis (window_ms p) before k s log
      → Bounded (window_ms p) m before log
      → (end : ℕ) → count_where (in_window (window_ms p) end) (run k p es s log).1 ≤ m
  unfolding run
  run-Bounded m before k p [] drawn s log limit valid cs sub held few end = few.few end
  run-Bounded m before k p (e ∷ es) drawn s log limit valid cs sub held few end =
      let (log_eq, held') = run-step p before k e s log valid cs.0 (sub e.member cs.1) held in
      run-Bounded m e.score k p es (e ∷ drawn) _ _ limit valid cs.2
        (λ member fresh. next_fresh member _ fresh.0 (sub member fresh.1)) held'
        (rw (log_eq, limit)
          (Bounded-log_allow (window_ms p) m before e.score e.member log cs.0 few))
        end
    where
      next_fresh :
          (member : Text) (b : Bool)
          → NotNamed member e
          → All (NotNamed member) log
          → All (NotNamed member) (if b then e ∷ log else log)
      next_fresh member true h h' = (h, h')
      next_fresh member false h h' = h'

  -- However many calls a subject makes, at moments that never go back and with members that are
  -- all different, from a budget that holds nothing: no period as long as the window, wherever it
  -- lies, holds more admissions than the maximum.
  pub run_bounded :
      (m start end : ℕ) (k : Text) (p : Policy) (es : List Entry) (s : Store)
      → p.max ≡ pos m
      → validate p ≡ none
      → items s start k ≡ []
      → Calls start [] es
      → count_where (in_window (window_ms p) end) (run k p es s []).1 ≤ m
  unfolding count_where
  run_bounded m start end k p es s limit valid nothing cs =
      run-Bounded m start k p es [] s [] limit valid cs (λ member fresh. tt) empty_log
        (record { past = tt; few = λ end. omega arith }) end
    where
      empty_log : HoldsAt redis (window_ms p) start k s []
      empty_log =
          rw nothing
            (record { covers = λ p h. refl; past = tt; lasting = tt; known = λ member fresh. tt })
