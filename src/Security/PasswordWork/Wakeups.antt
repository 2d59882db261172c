-- ===== src/Security/PasswordWork/Wakeups.antt =====
-- password_work.go: what the channel `changed` gives a goroutine that waits in the `select`.
use stash_it_backend.Base.{
  ℕ, suc, zero, ◌+◌, ◌-◌, ◌<◌, ◌≡◌, refl, ◌⊎◌, inl, inr, List, [], ◌∷◌, true, false, some,
  Option-cases, bit, arith, get_elem?, set, count_where, count_where-set, count_where-ge,
}
use stash_it_backend.Security.PasswordWork.{
  PasswordWorkLimiter, Caller, Action, System, react, step, run, start, newcomers, is_parked,
  is_stirring, put, parked, holding, take_changed, retry, call_release, send_wakeup,
}
use stash_it_backend.Security.PasswordWork.Invariant.{Inv, step-Inv, start-Inv, step-max}

-- Of a limiter with `p` goroutines parked and `s` stirring: when nothing is held and someone
-- waits, a wakeup is pending or on its way.
abbrev pub Signalled : PasswordWorkLimiter → ℕ → ℕ → Type 0
Signalled l p s = l.held ≡ 0 → 0 < p → (l.changed ≡ true) ⊎ (0 < s)

-- The other goroutines' counts are `p` and `s`.
react-Signalled :
    (a : Action) (c : Caller) (l : PasswordWorkLimiter) (p s : ℕ)
    → 0 < l.max_concurrent
    → Signalled l (p + bit (is_parked c)) (s + bit (is_stirring c))
    → Signalled
        (react c.place a c l).0
        (p + bit (is_parked (react c.place a c l).1))
        (s + bit (is_stirring (react c.place a c l).1))
unfolding react
react-Signalled a c l p s m h = ground arith

abbrev pub parked_count : System → ℕ
parked_count s = count_where is_parked s.callers

abbrev pub stirring_count : System → ℕ
stirring_count s = count_where is_stirring s.callers

put-Signalled :
    (s : System) (i : ℕ) (a : Action) (c : Caller)
    → get_elem? s.callers i ≡ some c
    → 0 < s.limiter.max_concurrent
    → Signalled s.limiter (parked_count s) (stirring_count s)
    → let t = put s i (react c.place a c s.limiter) in
      Signalled t.limiter (parked_count t) (stirring_count t)
put-Signalled s i a c e m h none_held waiting =
    elim (react-Signalled a c s.limiter p q m here none_held (omega (arith, parked_after))) [
      | inl changed ↦ inl changed
      | inr stirring ↦ inr (omega (arith, stirring, stirring_after))
    ]
  where
    p : ℕ
    p = parked_count s - bit (is_parked c)

    q : ℕ
    q = stirring_count s - bit (is_stirring c)

    parked_before : p + bit (is_parked c) ≡ parked_count s
    parked_before = omega (arith, count_where-ge is_parked s.callers i c e)

    stirring_before : q + bit (is_stirring c) ≡ stirring_count s
    stirring_before = omega (arith, count_where-ge is_stirring s.callers i c e)

    here : Signalled s.limiter (p + bit (is_parked c)) (q + bit (is_stirring c))
    here = rw (parked_before, stirring_before) h

    parked_after :
        p + bit (is_parked (react c.place a c s.limiter).1)
        ≡ count_where is_parked (set s.callers i (react c.place a c s.limiter).1)
    parked_after = omega (
      arith,
      parked_before,
      count_where-set is_parked s.callers i c (react c.place a c s.limiter).1 e,
    )

    stirring_after :
        q + bit (is_stirring (react c.place a c s.limiter).1)
        ≡ count_where is_stirring (set s.callers i (react c.place a c s.limiter).1)
    stirring_after = omega (
      arith,
      stirring_before,
      count_where-set is_stirring s.callers i c (react c.place a c s.limiter).1 e,
    )

abbrev pub SystemSignalled : System → Type 0
SystemSignalled s = Signalled s.limiter (parked_count s) (stirring_count s)

step-Signalled :
    (s : System) (e : ℕ × Action)
    → 0 < s.limiter.max_concurrent
    → SystemSignalled s
    → SystemSignalled (step s e)
unfolding step
step-Signalled s (i, a) m h = elim (Option-cases (get_elem? s.callers i)) [
  | inl e ↦ rw (e, step) h
  | inr (c, e) ↦ rw (e, step) (put-Signalled s i a c e m h)
]

run-Signalled :
    (s : System) (es : List (ℕ × Action))
    → Inv s
    → 0 < s.limiter.max_concurrent
    → SystemSignalled s
    → SystemSignalled (run s es)
unfolding run
run-Signalled s [] v m h = h
run-Signalled s (e ∷ es) v m h =
    run-Signalled (step s e) es (step-Inv s e v) (omega (arith, step-max s e v))
      (step-Signalled s e m h)

parked-newcomers : (n : ℕ) → count_where is_parked (newcomers n) ≡ 0
unfolding count_where
parked-newcomers zero = refl
parked-newcomers (suc n) = omega (arith, parked-newcomers n)

-- Whatever the interleaving, when no slot is in use while some goroutine waits in the `select`, a
-- wakeup is pending or some goroutine is about to read the count or to send one. At a concurrency
-- of one this covers every free slot.
pub run-signalled :
    (m wait n : ℕ) (es : List (ℕ × Action))
    → (run (start (suc m) wait n) es).limiter.held ≡ 0
    → 0 < parked_count (run (start (suc m) wait n) es)
    → ((run (start (suc m) wait n) es).limiter.changed ≡ true)
      ⊎ (0 < stirring_count (run (start (suc m) wait n) es))
unfolding start
run-signalled m wait n es =
    run-Signalled (start (suc m) wait n) es (start-Inv (suc m) wait n) (omega arith)
      (λ _ waiting. absurd (omega (arith, waiting, parked-newcomers n)))

abbrev pub holder : Caller
holder = record { place = holding; cancelled = false; fired = false }

abbrev pub waiter : Caller
waiter = record { place = parked; cancelled = false; fired = false }

-- Two releases, then one of the two waiters takes the wakeup and a slot.
abbrev pub two_releases : List (ℕ × Action)
two_releases =
    (0, call_release)
    ∷ (0, send_wakeup)
    ∷ (1, call_release)
    ∷ (1, send_wakeup)
    ∷ (2, take_changed)
    ∷ (2, retry)
    ∷ []

-- All slots in use, by two goroutines that will release and others, and two goroutines waiting.
abbrev pub contended : ℕ → ℕ → List Caller → System
contended m wait rest = record {
  limiter = record {
    changed = false;
    held = suc (suc m);
    max_concurrent = suc (suc m);
    wait = wait;
  };
  callers = holder ∷ holder ∷ waiter ∷ waiter ∷ rest;
}

-- At every concurrency of two or more a wakeup can be lost. From a state where all slots are in
-- use, two goroutines wait and no other is stirring, two releases and one retry lead to a state
-- with a free slot in which the other waiter still waits, no wakeup is pending and nobody is
-- about to send one.
pub wakeup_lost :
    (m wait : ℕ) (rest : List Caller)
    → count_where is_stirring rest ≡ 0
    → let s = run (contended m wait rest) two_releases in
      (s.limiter.held < s.limiter.max_concurrent)
      × (get_elem? s.callers 3 ≡ some waiter)
      × (s.limiter.changed ≡ false)
      × (stirring_count s ≡ 0)
unfolding run step react count_where
wakeup_lost m wait rest quiet = ground arith
