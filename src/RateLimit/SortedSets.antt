-- ===== src/RateLimit/SortedSets.antt =====
-- What internal/ratelimit/sliding.go relies on of Redis: the commands on sorted sets that its
-- scripts call, on a store that is a parameter, with their documented effect on a key as laws.
pub mod Memory
use stash_it_backend.Base.{
  ℕ, ◌+◌, ◌≤◌, ◌≡◌, List, [], ◌∷◌, Bool, true, false, not, ◌&&◌, ◌||◌, Option, none, some, All,
  length, keep, leb, ltb, ◌==◌, if◌then◌else◌,
}
use stash_it_backend.Base.Int.{ℤ, pos, leb_ℤ}
use stash_it_backend.Base.Text.{Text, text_eq}

-- A member with its score, here a moment in milliseconds.
pub record Entry : Type 0 where
  pub score : ℕ
  pub member : Text

-- The order of members with one score.
unfoldable pub text_ltb : Text → Text → Bool
text_ltb [] [] = false
text_ltb [] (b ∷ t) = true
text_ltb (a ∷ s) [] = false
text_ltb (a ∷ s) (b ∷ t) = ltb a b || ((a == b) && text_ltb s t)

unfoldable pub precedes : Entry → Entry → Bool
unfolding text_ltb
precedes d e = ltb d.score e.score || ((d.score == e.score) && text_ltb d.member e.member)

-- ZADD of a member that the set does not hold.
unfoldable pub insert_sorted : Entry → List Entry → List Entry
insert_sorted e [] = e ∷ []
insert_sorted e (d ∷ ds) = if precedes d e then d ∷ insert_sorted e ds else e ∷ (d ∷ ds)

abbrev pub has_member : Text → Entry → Bool
has_member m e = text_eq m e.member

-- Scores rise along a sorted set.
abbrev pub Sorted : List Entry → Type 0
Sorted [] = Unit {0}
Sorted (e ∷ es) = All (λ d. e.score ≤ d.score) es × Sorted es

abbrev pub is_empty : List Entry → Bool
is_empty [] = true
is_empty (e ∷ es) = false

-- The expiry of a key whose set became `es`: a key with no member left is gone.
abbrev pub kept_expiry : List Entry → Option ℕ → Option ℕ
kept_expiry [] d = none
kept_expiry (e ∷ es) d = d

-- The first entry's score, which is the reply of ZRANGE 0 0 WITHSCORES.
abbrev pub first_score : List Entry → Option ℕ
first_score [] = none
first_score (e ∷ es) = some e.score

abbrev pub is_over : Option ℕ → ℕ → Bool
is_over none later = false
is_over (some d) later = leb d later

pub record SortedSets : Type 1 where
  pub Store : Type 0
  -- The members of a key as a command at a moment finds them, none if the key is missing.
  pub items : Store → ℕ → Text → List Entry
  pub expiry : Store → ℕ → Text → Option ℕ
  pub zremrangebyscore : ℕ → Text → ℤ → Store → Store
  pub zcard : ℕ → Text → Store → ℕ
  pub pexpire : ℕ → Text → ℕ → Store → Store
  pub zfirst : ℕ → Text → Store → Option ℕ
  pub zadd : ℕ → Text → ℕ → Text → Store → Store
  pub key_exists : ℕ → Text → Store → Bool
  pub zrem : ℕ → Text → Text → Store → Store
  pub items_sorted : (s : Store) (now : ℕ) (k : Text) → Sorted (items s now k)
  pub items_later :
      (s : Store) (now later : ℕ) (k : Text)
      → now ≤ later
      → items s later k ≡ (if is_over (expiry s now k) later then [] else items s now k)
  pub expiry_later :
      (s : Store) (now later : ℕ) (k : Text)
      → now ≤ later
      → expiry s later k ≡ (if is_over (expiry s now k) later then none else expiry s now k)
  -- ZREMRANGEBYSCORE from -inf to a bound, which is included.
  pub zremrangebyscore_items :
      (s : Store) (now : ℕ) (k : Text) (bound : ℤ)
      → items (zremrangebyscore now k bound s) now k
        ≡ keep (λ e. not (leb_ℤ (pos e.score) bound)) (items s now k)
  pub zremrangebyscore_expiry :
      (s : Store) (now : ℕ) (k : Text) (bound : ℤ)
      → expiry (zremrangebyscore now k bound s) now k
        ≡ kept_expiry (items (zremrangebyscore now k bound s) now k) (expiry s now k)
  pub zcard_reply : (s : Store) (now : ℕ) (k : Text) → zcard now k s ≡ length (items s now k)
  -- PEXPIRE does nothing at a missing key.
  pub pexpire_items :
      (s : Store) (now : ℕ) (k : Text) (ms : ℕ)
      → 1 ≤ ms
      → items (pexpire now k ms s) now k ≡ items s now k
  pub pexpire_expiry :
      (s : Store) (now : ℕ) (k : Text) (ms : ℕ)
      → 1 ≤ ms
      → expiry (pexpire now k ms s) now k ≡ kept_expiry (items s now k) (some (now + ms))
  pub zfirst_reply : (s : Store) (now : ℕ) (k : Text) → zfirst now k s ≡ first_score (items s now k)
  -- ZADD keeps the expiry of its key, and a key that it creates has none.
  pub zadd_items :
      (s : Store) (now : ℕ) (k : Text) (score : ℕ) (member : Text)
      → All (λ e. has_member member e ≡ false) (items s now k)
      → items (zadd now k score member s) now k
        ≡ insert_sorted (record { score = score; member = member }) (items s now k)
  pub zadd_expiry :
      (s : Store) (now : ℕ) (k : Text) (score : ℕ) (member : Text)
      → expiry (zadd now k score member s) now k ≡ kept_expiry (items s now k) (expiry s now k)
  pub exists_reply :
      (s : Store) (now : ℕ) (k : Text) → key_exists now k s ≡ not (is_empty (items s now k))
  pub zrem_items :
      (s : Store) (now : ℕ) (k member : Text)
      → items (zrem now k member s) now k ≡ keep (λ e. not (has_member member e)) (items s now k)
  pub zrem_expiry :
      (s : Store) (now : ℕ) (k member : Text)
      → expiry (zrem now k member s) now k
        ≡ kept_expiry (items (zrem now k member s) now k) (expiry s now k)
