-- ===== src/Security/PasswordWork/Checks.antt =====
-- password_work.go: runs at concrete inputs.
use stash_it_backend.Base.{
  ℕ, ◌≤◌, ◌<◌, ◌≡◌, refl, ◌⊎◌, List, [], ◌∷◌, true, false, some, err, get_elem?, count_where, arith,
}
use stash_it_backend.Base.Int.{pos, negsuc}
use stash_it_backend.Security.PasswordWork.{
  Action, Caller, cancel, fire, take_timer, went_away, enter, fast_path, call_release, send_wakeup,
  start, step, run, react, new_password_work_limiter, concurrency_not_positive, wait_negative,
}
use stash_it_backend.Security.PasswordWork.Invariant.{holders, run-bounded}
use stash_it_backend.Security.PasswordWork.Wakeups.{
  waiter, contended, two_releases, stirring_count, run-signalled, wakeup_lost,
}
use stash_it_backend.Security.PasswordWork.Outcomes.{IsHonest, run-IsHonest}

-- Four goroutines at a concurrency of two: two get a slot, two wait.
abbrev arrivals : List (ℕ × Action)
arrivals =
    (0, enter)
    ∷ (0, fast_path)
    ∷ (1, enter)
    ∷ (1, fast_path)
    ∷ (2, enter)
    ∷ (2, fast_path)
    ∷ (3, enter)
    ∷ (3, fast_path)
    ∷ []

arrivals_contend : run (start 2 9 4) arrivals ≡ contended 0 9 []
unfolding run step react start
arrivals_contend = refl

no_concurrency : new_password_work_limiter (pos 0) (negsuc 4) ≡ err concurrency_not_positive
unfolding new_password_work_limiter
no_concurrency = refl

no_wait : new_password_work_limiter (pos 1) (negsuc 4) ≡ err wait_negative
unfolding new_password_work_limiter
no_wait = refl

-- A second call of a release that ran already gives nothing back.
released_twice :
    run
      (start 1 9 1)
      ((0, enter) ∷ (0, fast_path) ∷ (0, call_release) ∷ (0, send_wakeup) ∷ (0, call_release) ∷ [])
    ≡ run (start 1 9 1) ((0, enter) ∷ (0, fast_path) ∷ (0, call_release) ∷ (0, send_wakeup) ∷ [])
unfolding run step react start
released_twice = refl

run-bounded_example :
    ((run (start 2 9 4) arrivals).limiter.held ≡ holders (run (start 2 9 4) arrivals))
    × (holders (run (start 2 9 4) arrivals) ≤ 2)
run-bounded_example = run-bounded 2 9 4 arrivals

-- One goroutine works while another waits; the first gives its slot back.
abbrev handed_back : List (ℕ × Action)
handed_back = (0, enter) ∷ (0, fast_path) ∷ (1, enter) ∷ (1, fast_path) ∷ (0, call_release) ∷ []

run-signalled_example :
    ((run (start 1 9 2) handed_back).limiter.changed ≡ true)
    ⊎ (0 < stirring_count (run (start 1 9 2) handed_back))
unfolding run step react start count_where
run-signalled_example = run-signalled 0 9 2 handed_back refl (omega arith)

wakeup_lost_example :
    let s = run (contended 0 9 []) two_releases in
    (s.limiter.held < s.limiter.max_concurrent)
    × (get_elem? s.callers 3 ≡ some waiter)
    × (s.limiter.changed ≡ false)
    × (stirring_count s ≡ 0)
unfolding count_where
wakeup_lost_example = wakeup_lost 0 9 [] refl

-- The goroutine that waits is cancelled in the instant in which its timer fires.
abbrev cancelled_late : List (ℕ × Action)
cancelled_late = (0, enter) ∷ (0, fast_path) ∷ (1, enter) ∷ (1, fast_path) ∷ (1, cancel) ∷ []

run-IsHonest_example :
    (earlier : Caller) × (later : Caller) × (get_elem? (run (start 1 9 2) cancelled_late).callers 1
      ≡ some earlier)
    × (get_elem?
          (run (run (start 1 9 2) cancelled_late) ((1, fire) ∷ (1, take_timer) ∷ [])).callers
          1
        ≡ some later)
    × IsHonest earlier later
unfolding start
run-IsHonest_example =
    run-IsHonest (start 1 9 2) cancelled_late ((1, fire) ∷ (1, take_timer) ∷ []) 1 refl

cancelled_late-went_away :
    get_elem? (run (run (start 1 9 2) cancelled_late) ((1, fire) ∷ (1, take_timer) ∷ [])).callers 1
    ≡ some (record { place = went_away; cancelled = true; fired = true })
unfolding run step react start
cancelled_late-went_away = refl
