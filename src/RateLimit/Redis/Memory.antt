-- ===== src/RateLimit/Redis/Memory.antt =====
-- A store in memory that meets the laws of `Redis`: they can hold.
use stash_it_backend.Base.{
  ℕ, ◌≤◌, ◌≡◌, refl, Bool, true, false, Option, none, some, inl, inr, if◌then◌else◌, Bool-cases,
  Option-cases, arith, ap,
}
use stash_it_backend.Base.Int.{ℤ, pos, decrement}
use stash_it_backend.Base.Text.{Text, text_eq, text_eq_sound, text_eq_refl}
use stash_it_backend.RateLimit.Redis.{
  Redis, Counter, incremented, decremented, expiring, time_left, at_moment,
}

abbrev pub Memory : Type 0
Memory = Text → Option Counter

-- A write under one key.
unfoldable pub write : Text → Option Counter → Memory → Memory
write k o m j = if text_eq k j then o else m j

write_self : (k : Text) (o : Option Counter) (m : Memory) → write k o m k ≡ o
unfolding write
write_self k o m = ground (arith, text_eq_refl k)

write_other : (k j : Text) (o : Option Counter) (m : Memory) → (k ≡ j → ⊥) → write k o m j ≡ m j
unfolding write
write_other k j o m h = elim (Bool-cases (text_eq k j)) [
  | inl e ↦ absurd (h (text_eq_sound k j e))
  | inr e ↦ rw (e, write)
]

abbrev pub look : Memory → ℕ → Text → Option Counter
look m now k = at_moment now (m k)

-- An expired key reads as missing, then and later.
pub at_moment_twice :
    (o : Option Counter) (now later : ℕ)
    → now ≤ later
    → at_moment later o ≡ at_moment later (at_moment now o)
at_moment_twice o now later h = ground arith

incremented_alive :
    (o : Option Counter) (now : ℕ)
    → at_moment now (some (incremented (at_moment now o))) ≡ some (incremented (at_moment now o))
incremented_alive o now = ground arith

decremented_alive :
    (o : Option Counter) (c : Counter) (now : ℕ)
    → at_moment now o ≡ some c
    → at_moment now (some (decremented c)) ≡ some (decremented c)
decremented_alive o c now e = ground arith

abbrev pub on_found : Option Counter → (Counter → Counter) → Option Counter
on_found none f = none
on_found (some c) f = some (f c)

abbrev pub mem_incr : ℕ → Text → Memory → Memory × ℤ
mem_incr now k m = let c = incremented (look m now k) in (write k (some c) m, c.value)

abbrev pub mem_expire : ℕ → Text → ℕ → Memory → Memory
mem_expire now k seconds m = write k (on_found (look m now k) (expiring now seconds)) m

abbrev pub mem_exists : ℕ → Text → Memory → Bool
mem_exists now k m = elim (look m now k) [ none ↦ false | some c ↦ true ]

abbrev pub mem_get : ℕ → Text → Memory → Option ℤ
mem_get now k m = elim (look m now k) [ none ↦ none | some c ↦ some c.value ]

abbrev pub mem_decr : ℕ → Text → Memory → Memory × ℤ
mem_decr now k m = elim (look m now k) [
  | none ↦ (m, pos 0)
  | some c ↦ (write k (some (decremented c)) m, decrement c.value)
]

module _ (m : Memory) (now : ℕ) (k : Text) where
  pub mem_incr-view : look (mem_incr now k m).0 now k ≡ some (incremented (look m now k))
  mem_incr-view =
      ground
        (arith, write_self k (some (incremented (look m now k))) m, incremented_alive (m k) now)

  pub mem_expire-view :
      (seconds : ℕ) (c : Counter)
      → look m now k ≡ some c
      → look (mem_expire now k seconds m) now k ≡ at_moment now (some (expiring now seconds c))
  mem_expire-view seconds c e =
      rw e (ground (arith, write_self k (some (expiring now seconds c)) m))

  module _ (c : Counter) (e : look m now k ≡ some c) where
    pub mem_exists-found : mem_exists now k m ≡ true
    mem_exists-found = ground (arith, e)

    pub mem_get-found : mem_get now k m ≡ some c.value
    mem_get-found = ground (arith, e)

    pub mem_decr-view : look (mem_decr now k m).0 now k ≡ some (decremented c)
    mem_decr-view =
        ground (arith, e, write_self k (some (decremented c)) m, decremented_alive (m k) c now e)

    pub mem_decr-reply : (mem_decr now k m).1 ≡ decrement c.value
    mem_decr-reply = ground (arith, e)

  pub mem_exists-missing : look m now k ≡ none → mem_exists now k m ≡ false
  mem_exists-missing e = ground (arith, e)

  module _ (later : ℕ) (j : Text) (h : k ≡ j → ⊥) where
    pub mem_incr-other : look (mem_incr now k m).0 later j ≡ look m later j
    mem_incr-other = ap (at_moment later) (write_other k j _ m h)

    pub mem_expire-other :
        (seconds : ℕ) → look (mem_expire now k seconds m) later j ≡ look m later j
    mem_expire-other seconds = ap (at_moment later) (write_other k j _ m h)

    pub mem_decr-other : look (mem_decr now k m).0 later j ≡ look m later j
    mem_decr-other = elim (Option-cases (look m now k)) [
      | inl e ↦ ground (arith, e)
      | inr (c, e) ↦ ground (arith, e, write_other k j (some (decremented c)) m h)
    ]

abbrev pub memory : Redis
memory = record {
  Store = Memory;
  view = look;
  incr = mem_incr;
  expire = mem_expire;
  pttl = λ now k m. time_left now (look m now k);
  key_exists = mem_exists;
  get = mem_get;
  decr = mem_decr;
  view_later = λ m now later k h. at_moment_twice (m k) now later h;
  incr_view = mem_incr-view;
  incr_reply = λ m now k. refl;
  expire_view = λ m now seconds k c e. mem_expire-view m now k seconds c e;
  pttl_reply = λ m now k. refl;
  exists_missing = mem_exists-missing;
  exists_found = mem_exists-found;
  get_found = mem_get-found;
  decr_view = mem_decr-view;
  decr_reply = mem_decr-reply;
  incr_other = λ m now later k j h. mem_incr-other m now k later j h;
  expire_other = λ m now later seconds k j h. mem_expire-other m now k later j h seconds;
  decr_other = λ m now later k j h. mem_decr-other m now k later j h;
}

abbrev pub nothing_stored : Memory
nothing_stored k = none
