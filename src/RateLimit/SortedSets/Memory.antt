-- ===== src/RateLimit/SortedSets/Memory.antt =====
-- A store in memory that meets the laws of `SortedSets`: they can hold. Since a store is any function
-- from keys, the sets that are read are sorted when they are read.
use stash_it_backend.Base.{
  ℕ, ◌+◌, ◌≤◌, ◌≡◌, refl, sym, ap, ◌∙◌, List, [], ◌∷◌, Bool, true, false, not, Option, none, some,
  All, All-map, All-keep, length, keep, if◌then◌else◌, arith, inl, inr, Bool-cases,
}
use stash_it_backend.Base.Int.{ℤ, pos, leb_ℤ}
use stash_it_backend.Base.Text.{Text, text_eq, text_eq_refl}
use stash_it_backend.RateLimit.SortedSets.{
  SortedSets, Entry, insert_sorted, precedes, has_member, Sorted, is_empty, kept_expiry,
  first_score, is_over,
}

-- A set that is sorted, and the moment at which its key expires.
pub record SortedSet : Type 0 where
  pub entries : List Entry
  pub sorted : Sorted entries
  pub deadline : Option ℕ

abbrev pub Memory : Type 0
Memory = Text → SortedSet

pub keep-Sorted : (q : Entry → Bool) (es : List Entry) → Sorted es → Sorted (keep q es)
unfolding keep
keep-Sorted q [] h = tt
keep-Sorted q (e ∷ es) h = elim (Bool-cases (q e)) [
  | inl kept ↦ rw (kept, keep) (All-keep _ q es h.0, keep-Sorted q es h.1)
  | inr dropped ↦ rw (dropped, keep) (keep-Sorted q es h.1)
]

All-insert_sorted {κ} :
    (P : Entry → Type κ) (e : Entry) (es : List Entry) → P e → All P es → All P (insert_sorted e es)
unfolding insert_sorted
All-insert_sorted P e [] h k = (h, tt)
All-insert_sorted P e (d ∷ ds) h k = elim (Bool-cases (precedes d e)) [
  | inl before ↦ rw (before, insert_sorted) (k.0, All-insert_sorted P e ds h k.1)
  | inr after ↦ rw (after, insert_sorted) (h, k)
]

precedes-le : (d e : Entry) → precedes d e ≡ true → d.score ≤ e.score
unfolding precedes
precedes-le d e h = ground (arith, h)

not_precedes-le : (d e : Entry) → precedes d e ≡ false → e.score ≤ d.score
unfolding precedes
not_precedes-le d e h = ground (arith, h)

pub insert_sorted-Sorted : (e : Entry) (es : List Entry) → Sorted es → Sorted (insert_sorted e es)
unfolding insert_sorted
insert_sorted-Sorted e [] h = (tt, tt)
insert_sorted-Sorted e (d ∷ ds) h = elim (Bool-cases (precedes d e)) [
  | inl before ↦
      rw (before, insert_sorted)
        (All-insert_sorted _ e ds (precedes-le d e before) h.0, insert_sorted-Sorted e ds h.1)
  | inr after ↦
      rw (after, insert_sorted)
        (
          (
            not_precedes-le d e after,
            All-map ds (λ x le. omega (arith, not_precedes-le d e after)) h.0,
          ),
          h,
        )
]

abbrev pub read : SortedSet → ℕ → List Entry
read x now = if is_over x.deadline now then [] else x.entries

abbrev pub read_deadline : SortedSet → ℕ → Option ℕ
read_deadline x now = if is_over x.deadline now then none else x.deadline

pub read-Sorted : (x : SortedSet) (now : ℕ) → Sorted (read x now)
read-Sorted x now = elim (Bool-cases (is_over x.deadline now)) [
  | inl over ↦ rw over tt
  | inr alive ↦ rw alive x.sorted
]

unfoldable pub write : Text → SortedSet → Memory → Memory
write k x m j = if text_eq k j then x else m j

write_self : (k : Text) (x : SortedSet) (m : Memory) → write k x m k ≡ x
unfolding write
write_self k x m = rw (text_eq_refl k)

-- A key's entries replaced, and its expiry kept.
abbrev pub kept_set : ℕ → Text → (es : List Entry) → Sorted es → Memory → SortedSet
kept_set now k es h m = record {
  entries = es;
  sorted = h;
  deadline = kept_expiry es (read_deadline (m k) now);
}

abbrev pub kept_add : ℕ → Text → ℕ → Text → Memory → SortedSet
kept_add now k score member m = record {
  entries = insert_sorted (record { score = score; member = member }) (read (m k) now);
  sorted = insert_sorted-Sorted _ _ (read-Sorted (m k) now);
  deadline = kept_expiry (read (m k) now) (read_deadline (m k) now);
}

abbrev pub armed_set : ℕ → Text → ℕ → Memory → SortedSet
armed_set now k ms m = record {
  entries = read (m k) now;
  sorted = read-Sorted (m k) now;
  deadline = kept_expiry (read (m k) now) (some (now + ms));
}

abbrev pub dropped : ℕ → Text → ℤ → Memory → List Entry
dropped now k bound m = keep (λ e. not (leb_ℤ (pos e.score) bound)) (read (m k) now)

abbrev pub removed : ℕ → Text → Text → Memory → List Entry
removed now k member m = keep (λ e. not (has_member member e)) (read (m k) now)

-- What is read back of a set that was just written.
module _ (now : ℕ) (k : Text) (x : SortedSet) (m : Memory) where
  pub alive_read : is_over x.deadline now ≡ false → read (write k x m k) now ≡ x.entries
  alive_read alive = rw (write_self k x m, alive) refl

  pub alive_deadline :
      is_over x.deadline now ≡ false → read_deadline (write k x m k) now ≡ x.deadline
  alive_deadline alive = rw (write_self k x m, alive) refl

pub kept_alive :
    (now : ℕ) (es : List Entry) (x : SortedSet)
    → is_over (kept_expiry es (read_deadline x now)) now ≡ false
kept_alive now [] x = refl
kept_alive now (e ∷ es) x = elim (Bool-cases (is_over x.deadline now)) [
  | inl over ↦ rw over refl
  | inr alive ↦ rw alive alive
]

pub armed_alive :
    (now ms : ℕ) (es : List Entry) → 1 ≤ ms → is_over (kept_expiry es (some (now + ms))) now ≡ false
armed_alive now ms [] h = refl
armed_alive now ms (e ∷ es) h = ground arith

pub read-later :
    (x : SortedSet) (now later : ℕ)
    → now ≤ later
    → read x later ≡ (if is_over (read_deadline x now) later then [] else read x now)
read-later x now later h = later_of x.deadline
  where
    later_of :
        (d : Option ℕ)
        → (if is_over d later then [] else x.entries) ≡ (
            if is_over (if is_over d now then none else d) later
            then []
            else (if is_over d now then [] else x.entries))
    later_of none = refl
    later_of (some d) = ground arith

pub read_deadline-later :
    (x : SortedSet) (now later : ℕ)
    → now ≤ later
    → read_deadline x later
      ≡ (if is_over (read_deadline x now) later then none else read_deadline x now)
read_deadline-later x now later h = later_of x.deadline
  where
    later_of :
        (d : Option ℕ)
        → (if is_over d later then none else d) ≡ (
            if is_over (if is_over d now then none else d) later
            then none
            else (if is_over d now then none else d))
    later_of none = refl
    later_of (some d) = ground arith

abbrev pub memory : SortedSets
memory = record {
  Store = Memory;
  items = λ m now k. read (m k) now;
  expiry = λ m now k. read_deadline (m k) now;
  zremrangebyscore = λ now k bound m.
      write k (kept_set now k (dropped now k bound m) (keep-Sorted _ _ (read-Sorted (m k) now)) m)
        m;
  zcard = λ now k m. length (read (m k) now);
  pexpire = λ now k ms m. write k (armed_set now k ms m) m;
  zfirst = λ now k m. first_score (read (m k) now);
  zadd = λ now k score member m. write k (kept_add now k score member m) m;
  key_exists = λ now k m. not (is_empty (read (m k) now));
  zrem = λ now k member m.
      write k (kept_set now k (removed now k member m) (keep-Sorted _ _ (read-Sorted (m k) now)) m)
        m;
  items_sorted = λ m now k. read-Sorted (m k) now;
  items_later = λ m now later k h. read-later (m k) now later h;
  expiry_later = λ m now later k h. read_deadline-later (m k) now later h;
  zremrangebyscore_items =
      λ m now k bound. alive_read now k _ m (kept_alive now (dropped now k bound m) (m k));
  zremrangebyscore_expiry = λ m now k bound.
      alive_deadline now k _ m (kept_alive now (dropped now k bound m) (m k))
      ∙ sym (
          ap (λ es. kept_expiry es (read_deadline (m k) now))
            (alive_read now k _ m (kept_alive now (dropped now k bound m) (m k))));
  zcard_reply = λ m now k. refl;
  pexpire_items = λ m now k ms h. alive_read now k _ m (armed_alive now ms (read (m k) now) h);
  pexpire_expiry = λ m now k ms h. alive_deadline now k _ m (armed_alive now ms (read (m k) now) h);
  zfirst_reply = λ m now k. refl;
  zadd_items =
      λ m now k score member fresh. alive_read now k _ m (kept_alive now (read (m k) now) (m k));
  zadd_expiry =
      λ m now k score member. alive_deadline now k _ m (kept_alive now (read (m k) now) (m k));
  exists_reply = λ m now k. refl;
  zrem_items =
      λ m now k member. alive_read now k _ m (kept_alive now (removed now k member m) (m k));
  zrem_expiry = λ m now k member.
      alive_deadline now k _ m (kept_alive now (removed now k member m) (m k))
      ∙ sym (
          ap (λ es. kept_expiry es (read_deadline (m k) now))
            (alive_read now k _ m (kept_alive now (removed now k member m) (m k))));
}

abbrev pub nothing_stored : Memory
nothing_stored k = record { entries = []; sorted = tt; deadline = none }
