-- ===== src/Security/PasswordWork/Outcomes.antt =====
-- password_work.go: what `Acquire` tells one goroutine.
use stash_it_backend.Base.{
  ℕ, ◌≡◌, refl, ◌⊎◌, inl, inr, List, [], ◌∷◌, Bool, true, some, Option-cases, Bool-cases, arith,
  get_elem?, get_elem?-set_self, subst, ◌∙◌, get_elem?-set_ne, ◌==◌, ==_iff,
}
use stash_it_backend.Security.PasswordWork.{
  PasswordWorkLimiter, Caller, Action, System, react, step, run, newcomer, outside, went_away,
  timed_out,
}

-- A fact about one goroutine that its own steps keep, whatever the limiter is.
module _ (P : Caller → Type 0)
    (kept : (a : Action) (c : Caller) (l : PasswordWorkLimiter)
      → P c
      → P (react c.place a c l).1) where
  step-caller :
      (s : System) (e : ℕ × Action) (i : ℕ) (c : Caller)
      → get_elem? s.callers i ≡ some c
      → P c
      → (c' : Caller) × (get_elem? (step s e).callers i ≡ some c') × P c'
  unfolding step
  step-caller s (j, a) i c e h = elim (Option-cases (get_elem? s.callers j)) [
    | inl missing ↦ rw (missing, step) (c, e, h)
    | inr (d, found) ↦
        rw (found, step)
          (elim (Bool-cases (j == i)) [
            | inl same ↦
                let eq : j ≡ i = (==_iff j i).0 same in
                (
                  (react d.place a d s.limiter).1,
                  rw eq (get_elem?-set_self s.callers i c _ e),
                  kept a d s.limiter (subst P (caller_of eq found) h),
                )
            | inr other ↦
                (c, get_elem?-set_ne s.callers j i _ (λ eq. ground (arith, other, eq)) ∙ e, h)
          ])
  ]
    where
      caller_of : {d : Caller} {j : ℕ} → j ≡ i → get_elem? s.callers j ≡ some d → c ≡ d
      caller_of eq found = cc

  run-caller :
      (s : System) (es : List (ℕ × Action)) (i : ℕ) (c : Caller)
      → get_elem? s.callers i ≡ some c
      → P c
      → (c' : Caller) × (get_elem? (run s es).callers i ≡ some c') × P c'
  unfolding run
  run-caller s [] i c e h = (c, e, h)
  run-caller s (v ∷ vs) i c e h =
      let (c', e', h') = step-caller s v i c e h in run-caller (step s v) vs i c' e' h'

-- What a goroutine that stands at `earlier` may be told by the time it stands at `later`.
pub record IsHonest (earlier later : Caller) : Type 0 where
  pub busy : later.place ≡ timed_out → later.fired ≡ true
  pub gone : later.place ≡ went_away → later.cancelled ≡ true
  -- a cancellation is not taken back
  pub lasting : earlier.cancelled ≡ true → later.cancelled ≡ true
  -- once the context is cancelled nobody is told any more that capacity timed out
  pub not_busy : earlier.cancelled ≡ true → later.place ≡ timed_out → earlier.place ≡ timed_out

react-IsHonest :
    (earlier : Caller) (a : Action) (c : Caller) (l : PasswordWorkLimiter)
    → IsHonest earlier c
    → IsHonest earlier (react c.place a c l).1
unfolding react
react-IsHonest earlier a c l h = ground arith

IsHonest-self : (c : Caller) → IsHonest newcomer c → IsHonest c c
IsHonest-self c h = record { busy = h.busy; gone = h.gone; lasting = λ e. e; not_busy = λ _ e. e }

-- Whatever the interleaving, take a goroutine that has not called `Acquire` yet at two moments of
-- its further way. At the later one it was told that capacity timed out only if its timer fired,
-- and got the context's error only if its context was cancelled; and if its context was cancelled
-- at the earlier one, it was told that capacity timed out only if it had been told so by then.
pub run-IsHonest :
    (s : System) (before between : List (ℕ × Action)) (i : ℕ)
    → get_elem? s.callers i ≡ some newcomer
    → (earlier : Caller) × (later : Caller) × (get_elem? (run s before).callers i ≡ some earlier)
      × (get_elem? (run (run s before) between).callers i ≡ some later)
      × IsHonest earlier later
run-IsHonest s before between i e =
    let new : IsHonest newcomer newcomer = record {
      busy = λ h. cc;
      gone = λ h. cc;
      lasting = λ h. h;
      not_busy = λ _ h. h;
    } in
    let (c, at, h) =
      run-caller (IsHonest newcomer) (react-IsHonest newcomer) s before i newcomer e new in
    let (c', at', h') =
      run-caller (IsHonest c) (react-IsHonest c) (run s before) between i c at
        (IsHonest-self c h) in
    (c, c', at, at', h')

abbrev pub NeverStarts : Caller → Type 0
NeverStarts c = (c.cancelled ≡ true) × ((c.place ≡ outside) ⊎ (c.place ≡ went_away))

react-NeverStarts :
    (a : Action) (c : Caller) (l : PasswordWorkLimiter)
    → NeverStarts c
    → NeverStarts (react c.place a c l).1
unfolding react
react-NeverStarts a c l h = ground arith

-- A goroutine whose context was cancelled before it called `Acquire` never waits and never gets a
-- slot, whatever the interleaving and however many slots are free: it stays outside, or is told
-- that it went away.
pub run-NeverStarts :
    (s : System) (es : List (ℕ × Action)) (i : ℕ) (fired : Bool)
    → get_elem? s.callers i ≡ some (record { place = outside; cancelled = true; fired = fired })
    → (c : Caller) × (get_elem? (run s es).callers i ≡ some c) × NeverStarts c
run-NeverStarts s es i fired e =
    run-caller NeverStarts react-NeverStarts s es i _ e (refl, inl refl)
