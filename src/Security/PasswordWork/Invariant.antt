-- ===== src/Security/PasswordWork/Invariant.antt =====
-- password_work.go: the count of slots is the number of releases that did not run yet.
use stash_it_backend.Base.{
  ℕ, suc, zero, ◌+◌, ◌≤◌, ◌≡◌, refl, inl, inr, List, [], ◌∷◌, some, Option-cases, bit, arith,
  get_elem?, count_where, count_where-set, count_where-ge,
}
use stash_it_backend.Security.PasswordWork.{
  PasswordWorkLimiter, Caller, Action, System, react, step, run, start, newcomers, is_holding, put,
}

-- What one step of one goroutine does to the limiter, counted with its own place.
pub record Local (l l' : PasswordWorkLimiter) (c c' : Caller) : Type 0 where
  pub same_max : l'.max_concurrent ≡ l.max_concurrent
  pub moved : l'.held + bit (is_holding c) ≡ l.held + bit (is_holding c')
  pub within : l'.held ≤ l'.max_concurrent

pub react-Local :
    (a : Action) (c : Caller) (l : PasswordWorkLimiter)
    → l.held ≤ l.max_concurrent
    → bit (is_holding c) ≤ l.held
    → Local l (react c.place a c l).0 c (react c.place a c l).1
unfolding react
react-Local a c l h k = ground arith

-- How many goroutines hold a slot.
abbrev pub holders : System → ℕ
holders s = count_where is_holding s.callers

pub record Inv (s : System) : Type 0 where
  pub within : s.limiter.held ≤ s.limiter.max_concurrent
  pub owned : s.limiter.held ≡ holders s

put-Inv :
    (s : System) (i : ℕ) (c : Caller) (r : PasswordWorkLimiter × Caller)
    → get_elem? s.callers i ≡ some c
    → Local s.limiter r.0 c r.1
    → Inv s
    → Inv (put s i r)
put-Inv s i c r e m v = record {
  within = m.within;
  owned = omega (arith, count_where-set is_holding s.callers i c r.1 e, m.moved, v.owned);
}

pub step-Inv : (s : System) (e : ℕ × Action) → Inv s → Inv (step s e)
unfolding step
step-Inv s (i, a) v = elim (Option-cases (get_elem? s.callers i)) [
  | inl e ↦ rw (e, step) v
  | inr (c, e) ↦
      rw (e, step)
        (put-Inv s i c (react c.place a c s.limiter) e
          (react-Local a c s.limiter v.within
            (omega (arith, v.owned, count_where-ge is_holding s.callers i c e)))
          v)
]

pub run-Inv : (s : System) (es : List (ℕ × Action)) → Inv s → Inv (run s es)
unfolding run
run-Inv s [] v = v
run-Inv s (e ∷ es) v = run-Inv (step s e) es (step-Inv s e v)

holders-newcomers : (n : ℕ) → count_where is_holding (newcomers n) ≡ 0
unfolding count_where
holders-newcomers zero = refl
holders-newcomers (suc n) = omega (arith, holders-newcomers n)

pub start-Inv : (max wait n : ℕ) → Inv (start max wait n)
unfolding start
start-Inv max wait n = record { within = omega arith; owned = omega (arith, holders-newcomers n) }

pub step-max :
    (s : System) (e : ℕ × Action)
    → Inv s
    → (step s e).limiter.max_concurrent ≡ s.limiter.max_concurrent
unfolding step
step-max s (i, a) v = elim (Option-cases (get_elem? s.callers i)) [
  | inl e ↦ rw (e, step) refl
  | inr (c, e) ↦
      rw (e, step)
        (react-Local a c s.limiter v.within
          (omega (arith, v.owned, count_where-ge is_holding s.callers i c e))).same_max
]

pub run-max :
    (s : System) (es : List (ℕ × Action))
    → Inv s
    → (run s es).limiter.max_concurrent ≡ s.limiter.max_concurrent
unfolding run
run-max s [] v = refl
run-max s (e ∷ es) v = omega (arith, run-max (step s e) es (step-Inv s e v), step-max s e v)

-- Whatever the interleaving of any number of goroutines, the count of slots in use is the number
-- of goroutines that hold a release which did not run, and that number never exceeds the
-- configured concurrency.
pub run-bounded :
    (max wait n : ℕ) (es : List (ℕ × Action))
    → ((run (start max wait n) es).limiter.held ≡ holders (run (start max wait n) es))
      × (holders (run (start max wait n) es) ≤ max)
run-bounded max wait n es =
    (v.owned, omega (arith, v.within, v.owned, run-max (start max wait n) es v0, start_max))
  where
    v0 : Inv (start max wait n)
    v0 = start-Inv max wait n

    v : Inv (run (start max wait n) es)
    v = run-Inv (start max wait n) es v0

    start_max : (start max wait n).limiter.max_concurrent ≡ max
    start_max = unfold start in refl
