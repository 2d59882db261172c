-- ===== src/RateLimit/Checks.antt =====
-- internal/ratelimit: the limiters at concrete inputs, over stores in memory.
use Prim.Native.Nat.{min}
use stash_it_backend.Base.{
  ℕ, suc, ◌*◌, ◌%◌, if◌then◌else◌, ◌≤◌, ◌≡◌, refl, List, [], ◌∷◌, true, false, none, some, ok,
  length, count_where, keep, arith,
}
use stash_it_backend.Base.Int.{pos}
use stash_it_backend.Base.Text.{Text, text, text_eq}
use stash_it_backend.RateLimit.Redis.Memory as Counters
use stash_it_backend.RateLimit.SortedSets.{Entry, insert_sorted, precedes}
use stash_it_backend.RateLimit.SortedSets.Memory as Sets
use stash_it_backend.RateLimit.Reply.{Policy, delivered, validate, retry_after, second}
use stash_it_backend.RateLimit.Key.{derive_key, derive_key-injective, key_prefix}
use stash_it_backend.RateLimit.Fixed.{allow, release, increment_with_ttl}
use stash_it_backend.RateLimit.Fixed.Window.{admissions, admissions_budget}
use stash_it_backend.RateLimit.Fixed.Refunds.{release-allow}
use stash_it_backend.RateLimit.Sliding.{
  admit_to_sliding_window, script_wait, sliding_allow, sliding_release, window_ms, SlidingVerdict,
}
use stash_it_backend.RateLimit.Sliding.Log.{admission, log_allow}
use stash_it_backend.RateLimit.Sliding.Refinement.{HoldsAt, sliding_allow-log}
use stash_it_backend.RateLimit.Sliding.Bounds.{Calls, in_window, run, run_bounded}
use stash_it_backend.RateLimit.Sliding.Waits.{FreesAfter, sliding_wait}
use stash_it_backend.RateLimit.Sliding.Refunds.{sliding_release-allow}

abbrev k : Text
k = text "k"

-- Two in a minute.
abbrev policy : Policy
policy = record { max = pos 2; window = pos 60000000000 }

policy-valid : validate policy ≡ none
unfolding validate
policy-valid = refl

admissions_budget_example :
    (admissions Counters.memory k policy (5 ∷ 6 ∷ 900 ∷ 59999 ∷ []) Counters.nothing_stored).1
    ≡ min 2 (suc (length {A = ℕ} (6 ∷ 900 ∷ 59999 ∷ [])))
admissions_budget_example =
    admissions_budget Counters.memory 2 5 k (pos 60000000000) (6 ∷ 900 ∷ 59999 ∷ [])
      Counters.nothing_stored policy-valid refl (omega arith)

-- The store after a first call at 5.
abbrev counted_once : Counters.Memory
counted_once j =
    if text_eq k j then some (record { value = pos 1; deadline = some 60005 }) else none

first_call :
    (allow Counters.memory delivered 5 k policy Counters.nothing_stored).1
    ≡ ok (record { count = pos 1; allowed = true; wait = 60 * second })
unfolding allow increment_with_ttl text_eq Counters.write retry_after validate
first_call = refl

third_call :
    (allow Counters.memory delivered 900 k policy
      (allow Counters.memory delivered 6 k policy counted_once).0).1
    ≡ ok (record { count = pos 3; allowed = false; wait = 60 * second })
unfolding allow increment_with_ttl text_eq Counters.write retry_after validate
third_call = refl

other_key : k ≡ text "j" → ⊥
other_key e = ground arith

release-allow_example :
    Counters.look
      (release Counters.memory delivered 90 k
        (allow Counters.memory delivered 6 k policy counted_once).0).0
      90
      k
    ≡ some (record { value = pos 1; deadline = some 60005 })
unfolding text_eq
release-allow_example =
    release-allow Counters.memory 6 90 0 60005 k policy counted_once policy-valid refl (omega arith)
      (omega arith)

-- A digest of one byte, for the message's first character.
abbrev short_mac : Text → Text → List ℕ
short_mac secret [] = 0 ∷ []
short_mac secret (c ∷ cs) = (c % 256) ∷ []

derive_key-injective_example :
    (text "pin" ≡ text "pin") × (short_mac [] (text "a") ≡ short_mac [] (text "ab"))
unfolding derive_key
derive_key-injective_example =
    derive_key-injective short_mac key_prefix [] (text "pin") (text "pin") (text "a") (text "ab")
      (omega arith) (omega arith) refl

abbrev draws : List Entry
draws =
    admission 5 (text "a")
    ∷ admission 6 (text "b")
    ∷ admission 900 (text "c")
    ∷ admission 60005 (text "d")
    ∷ []

run_admits : length (run Sets.memory k policy draws Sets.nothing_stored []).1 ≡ 3
unfolding run sliding_allow admit_to_sliding_window insert_sorted precedes keep text_eq Sets.write
    validate
run_admits = refl

run_bounded_example :
    count_where
      (in_window (window_ms policy) 60004)
      (run Sets.memory k policy draws Sets.nothing_stored []).1
    ≤ 2
unfolding text_eq
run_bounded_example =
    run_bounded Sets.memory 2 0 60004 k policy draws Sets.nothing_stored refl policy-valid refl
      calls
  where
    calls : Calls 0 [] draws
    calls = (
      omega arith,
      tt,
      (
        omega arith,
        (refl, tt),
        (omega arith, (refl, (refl, tt)), (omega arith, (refl, (refl, (refl, tt))), tt)),
      ),
    )

-- A budget that nothing was admitted to.
nothing_held : HoldsAt Sets.memory 60000 0 k Sets.nothing_stored []
nothing_held = record { covers = λ p h. refl; past = tt; lasting = tt; known = λ m fresh. tt }

sliding_allow-log_example :
    let (s', r) =
      sliding_allow Sets.memory delivered 5 k (some (text "a")) policy Sets.nothing_stored in
    let (log', allowed, count) = log_allow (window_ms policy) policy.max 5 (text "a") [] in
    HoldsAt Sets.memory (window_ms policy) 5 k s' log'
    × (v : SlidingVerdict) × (r ≡ ok v)
    × (v.allowed ≡ allowed)
    × (v.count ≡ count)
    × (v.admission ≡ (if allowed then some (text "a") else none))
sliding_allow-log_example =
    sliding_allow-log Sets.memory 0 5 k (text "a") policy Sets.nothing_stored [] policy-valid
      (omega arith) tt nothing_held

sliding_release-allow_example :
    HoldsAt Sets.memory
      (window_ms policy)
      9
      k
      (sliding_release Sets.memory delivered 9 k
        (some (text "a"))
        (sliding_allow Sets.memory delivered 5 k (some (text "a")) policy Sets.nothing_stored).0).0
      []
sliding_release-allow_example =
    sliding_release-allow Sets.memory 0 5 9 k (text "a") policy Sets.nothing_stored [] policy-valid
      (omega arith) (omega arith) tt nothing_held

-- A budget with two entries.
abbrev two_held : Sets.Memory
two_held j = record {
  entries = admission 5 (text "a") ∷ admission 6 (text "b") ∷ [];
  sorted = ((omega arith, tt), (tt, tt));
  deadline = none;
}

abbrev refusal : SlidingVerdict
refusal = record { count = 2; allowed = false; wait = 60 * second; admission = none }

sliding_wait_example :
    let es =
      Sets.read
        ((sliding_allow Sets.memory delivered 900 k (some (text "c")) policy two_held).0 k)
        900 in
    (ms : ℕ) × (refusal.wait ≡ retry_after (pos ms))
    × (length es ≡ refusal.count)
    × FreesAfter (window_ms policy) 900 es ms
unfolding sliding_allow admit_to_sliding_window keep validate retry_after text_eq Sets.write
    script_wait
sliding_wait_example =
    sliding_wait Sets.memory 900 k (text "c") policy two_held refusal policy-valid refl refl
