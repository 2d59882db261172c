-- ===== src/RateLimit/Redis.antt =====
-- What internal/ratelimit relies on of Redis. The server is a parameter: a store, the commands that
-- the scripts call, and the documented effect of each command on a key as laws. A script runs to
-- completion at one moment, which is an argument in milliseconds.
pub mod Memory
use stash_it_backend.Base.{
  ℕ, ◌+◌, ◌-◌, ◌*◌, ◌≤◌, ◌≡◌, Bool, true, false, Option, none, some, leb, if◌then◌else◌,
}
use stash_it_backend.Base.Int.{ℤ, pos, negsuc, increment, decrement}
use stash_it_backend.Base.Text.{Text}

-- A key with an integer value, and the moment at which it expires, if it has one.
pub record Counter : Type 0 where
  pub value : ℤ
  pub deadline : Option ℕ

-- INCR: a missing key counts from zero and has no expiry; an expiry stays.
abbrev pub incremented : Option Counter → Counter
incremented none = record { value = pos 1; deadline = none }
incremented (some c) = record c { value = increment c.value }

-- DECR, at a key that exists.
abbrev pub decremented : Counter → Counter
decremented c = record c { value = decrement c.value }

-- EXPIRE, in seconds from now, at a key that exists.
abbrev pub expiring : ℕ → ℕ → Counter → Counter
expiring now seconds c = record c { deadline = some (now + seconds * 1000) }

-- PTTL: -2 for a missing key, -1 for one with no expiry, else the time left.
abbrev pub time_left : ℕ → Option Counter → ℤ
time_left now none = negsuc 1
time_left now (some c) = elim c.deadline [ none ↦ negsuc 0 | some d ↦ pos (d - now) ]

-- What is left of a key at a later moment: it is gone once its deadline is reached.
abbrev pub at_moment : ℕ → Option Counter → Option Counter
at_moment later none = none
at_moment later (some c) = elim c.deadline [
  | none ↦ some c
  | some d ↦ if leb d later then none else some c
]

pub record Redis : Type 1 where
  pub Store : Type 0
  -- A key as a command at a moment finds it.
  pub view : Store → ℕ → Text → Option Counter
  pub incr : ℕ → Text → Store → Store × ℤ
  pub expire : ℕ → Text → ℕ → Store → Store
  pub pttl : ℕ → Text → Store → ℤ
  pub key_exists : ℕ → Text → Store → Bool
  pub get : ℕ → Text → Store → Option ℤ
  pub decr : ℕ → Text → Store → Store × ℤ
  pub view_later :
      (s : Store) (now later : ℕ) (k : Text)
      → now ≤ later
      → view s later k ≡ at_moment later (view s now k)
  pub incr_view :
      (s : Store) (now : ℕ) (k : Text)
      → view (incr now k s).0 now k ≡ some (incremented (view s now k))
  pub incr_reply :
      (s : Store) (now : ℕ) (k : Text) → (incr now k s).1 ≡ (incremented (view s now k)).value
  pub expire_view :
      (s : Store) (now seconds : ℕ) (k : Text) (c : Counter)
      → view s now k ≡ some c
      → view (expire now k seconds s) now k ≡ at_moment now (some (expiring now seconds c))
  pub pttl_reply : (s : Store) (now : ℕ) (k : Text) → pttl now k s ≡ time_left now (view s now k)
  pub exists_missing :
      (s : Store) (now : ℕ) (k : Text) → view s now k ≡ none → key_exists now k s ≡ false
  pub exists_found :
      (s : Store) (now : ℕ) (k : Text) (c : Counter)
      → view s now k ≡ some c
      → key_exists now k s ≡ true
  pub get_found :
      (s : Store) (now : ℕ) (k : Text) (c : Counter)
      → view s now k ≡ some c
      → get now k s ≡ some c.value
  pub decr_view :
      (s : Store) (now : ℕ) (k : Text) (c : Counter)
      → view s now k ≡ some c
      → view (decr now k s).0 now k ≡ some (decremented c)
  pub decr_reply :
      (s : Store) (now : ℕ) (k : Text) (c : Counter)
      → view s now k ≡ some c
      → (decr now k s).1 ≡ decrement c.value
  -- No command touches another key.
  pub incr_other :
      (s : Store) (now later : ℕ) (k j : Text)
      → (k ≡ j → ⊥)
      → view (incr now k s).0 later j ≡ view s later j
  pub expire_other :
      (s : Store) (now later seconds : ℕ) (k j : Text)
      → (k ≡ j → ⊥)
      → view (expire now k seconds s) later j ≡ view s later j
  pub decr_other :
      (s : Store) (now later : ℕ) (k j : Text)
      → (k ≡ j → ⊥)
      → view (decr now k s).0 later j ≡ view s later j
