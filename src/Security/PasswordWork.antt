-- ===== src/Security/PasswordWork.antt =====
-- internal/security/password_work.go: the bound on concurrent password work.
--
-- The limiter is the shared record; a caller is one goroutine in `Acquire`, in the work, or in the
-- release that `Acquire` gave it. The atomic steps are the code's: a check of the context, a
-- critical section under `mu`, one case of the `select`, one non-blocking send. `run` takes any
-- list of such steps, so a theorem about `run` is about every interleaving.
-- A goroutine that is about to enter the `select` and one that is blocked in it stand at the same
-- place, and a send that Go hands to a blocked receiver at once is here the send, then the receive;
-- so `run` has every interleaving of the source, and more in which the receive comes later.
pub mod Invariant
pub mod Wakeups
pub mod Outcomes
pub mod Checks
use stash_it_backend.Base.{
  ℕ, suc, ◌+◌, ◌-◌, List, [], ◌∷◌, Bool, true, false, Option, none, some, Result, ok, err, leb, ltb,
  ◌==◌, if◌then◌else◌, get_elem?, set, ◌&&◌,
}
use stash_it_backend.Base.Int.{ℤ, pos, negsuc}

-- `changed` is the channel of capacity one: whether a wakeup is in it.
pub record PasswordWorkLimiter : Type 0 where
  pub changed : Bool
  pub held : ℕ
  pub max_concurrent : ℕ
  pub wait : ℕ

pub data ConfigError : Type 0 where
  concurrency_not_positive wait_negative : ConfigError

-- `maxConcurrent` and `wait` are signed in the source.
pub new_password_work_limiter : ℤ → ℤ → Result ConfigError PasswordWorkLimiter
new_password_work_limiter (negsuc n) wait = err concurrency_not_positive
new_password_work_limiter (pos n) (negsuc w) =
    if ltb n 1 then err concurrency_not_positive else err wait_negative
new_password_work_limiter (pos n) (pos w) =
    if ltb n 1
    then err concurrency_not_positive
    else ok (record { changed = false; held = 0; max_concurrent = n; wait = w })

-- Where a goroutine stands.
pub data Place : Type 0 where
  -- before `Acquire`, and after its first check of the context
  outside checked : Place
  -- in the `select` or about to enter it, and after it took a wakeup
  parked woken : Place
  -- `Acquire` returned a release that did not run yet
  holding : Place
  -- in `release`, between the critical section and the send
  announcing : Place
  -- the release ran; `Acquire` returned ErrPasswordWorkCapacityTimeout, or ctx.Err()
  released timed_out went_away : Place

pub record Caller : Type 0 where
  pub place : Place
  pub cancelled : Bool
  pub fired : Bool

pub try_acquire : PasswordWorkLimiter → PasswordWorkLimiter × Bool
try_acquire l =
    if leb l.max_concurrent l.held then (l, false) else (record l { held = l.held + 1 }, true)

-- The critical section of `release`; the result says whether anything was held.
pub release_slot : PasswordWorkLimiter → PasswordWorkLimiter × Bool
release_slot l = if ltb 0 l.held then (record l { held = l.held - 1 }, true) else (l, false)

-- The non-blocking send of `release`: a wakeup that is pending already is enough.
pub announce : PasswordWorkLimiter → PasswordWorkLimiter
announce l = record l { changed = true }

pub data Action : Type 0 where
  -- the environment: the context is cancelled, the timer fires
  cancel fire : Action
  -- `Acquire`: the first check, the fast path, the three cases of the `select`, the retry
  enter fast_path take_done take_changed take_timer retry : Action
  -- the closure of `releaseOnce`: `once.Do` and the critical section, then the send
  call_release send_wakeup : Action

abbrev at_place : Caller → Place → Caller
at_place c p = record c { place = p }

-- The fast path and the retry: take a slot, or wait in the `select`.
attempt : Caller → PasswordWorkLimiter → PasswordWorkLimiter × Caller
unfolding try_acquire
attempt c l = let (l', got) = try_acquire l in (l', at_place c (if got then holding else parked))

-- One atomic step of one goroutine. A step that its place does not allow changes nothing; so does
-- a release that was called before, which is what `sync.Once` gives.
pub react : Place → Action → Caller → PasswordWorkLimiter → PasswordWorkLimiter × Caller
unfolding attempt release_slot announce
react _ cancel c l = (l, record c { cancelled = true })
react parked fire c l = (l, record c { fired = true })
react outside enter c l = (l, at_place c (if c.cancelled then went_away else checked))
react checked fast_path c l = attempt c l
react parked take_done c l = (l, if c.cancelled then at_place c went_away else c)
react parked take_changed c l =
    if l.changed then (record l { changed = false }, at_place c woken) else (l, c)
react parked take_timer c l =
    (l, if c.fired then at_place c (if c.cancelled then went_away else timed_out) else c)
react woken retry c l = attempt c l
react holding call_release c l =
    let (l', announced) = release_slot l in
    (l', at_place c (if announced then announcing else released))
react announcing send_wakeup c l = (announce l, at_place c released)
react _ _ c l = (l, c)

pub record System : Type 0 where
  pub limiter : PasswordWorkLimiter
  pub callers : List Caller

abbrev put : System → ℕ → PasswordWorkLimiter × Caller → System
put s i (l, c) = record { limiter = l; callers = set s.callers i c }

-- A step of the goroutine with number `i`.
pub step : System → ℕ × Action → System
unfolding react
step s (i, a) = elim (get_elem? s.callers i) [
  | none ↦ s
  | some c ↦ put s i (react c.place a c s.limiter)
]

pub run : System → List (ℕ × Action) → System
run s [] = s
run s (e ∷ es) = run (step s e) es

abbrev pub newcomer : Caller
newcomer = record { place = outside; cancelled = false; fired = false }

abbrev pub newcomers : ℕ → List Caller
newcomers ℕ.zero = []
newcomers (suc n) = newcomer ∷ newcomers n

-- A limiter as `NewPasswordWorkLimiter` returns it, and `n` goroutines that may call it.
pub start : ℕ → ℕ → ℕ → System
start max wait n = record {
  limiter = record { changed = false; held = 0; max_concurrent = max; wait = wait };
  callers = newcomers n;
}

abbrev pub is_holding : Caller → Bool
is_holding c = elim c.place [ holding ↦ true | _ ↦ false ]

abbrev pub is_parked : Caller → Bool
is_parked c = elim c.place [ parked ↦ true | _ ↦ false ]

-- A goroutine that is about to read the count again, or to send a wakeup.
abbrev pub is_stirring : Caller → Bool
is_stirring c = elim c.place [ woken ↦ true | announcing ↦ true | _ ↦ false ]
