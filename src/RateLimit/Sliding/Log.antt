-- ===== src/RateLimit/Sliding/Log.antt =====
-- internal/ratelimit/sliding.go: a log of all admissions, and when a sorted set stands for it.
use stash_it_backend.Base.{
  ℕ, ◌+◌, ◌≤◌, ◌≡◌, refl, sym, ◌∙◌, List, [], ◌∷◌, Bool, true, false, not, Option, none, some,
  if◌then◌else◌, ltb, arith, bit, inl, inr, Bool-cases, All, keep, count_where, count_where-keep,
  count_where-none, All-map, All-keep,
}
use stash_it_backend.Base.Int.{ℤ, pos, leb_ℤ, sub_ℕ}
use stash_it_backend.Base.Text.{Text}
use stash_it_backend.RateLimit.SortedSets.{
  Entry, insert_sorted, has_member, kept_expiry, is_over, precedes,
}

-- An entry is inside the window that ends at a moment.
abbrev pub is_live : ℕ → ℕ → Entry → Bool
is_live window now e = ltb now (e.score + window)

pub count_where-insert_sorted :
    (p : Entry → Bool) (e : Entry) (es : List Entry)
    → count_where p (insert_sorted e es) ≡ bit (p e) + count_where p es
unfolding insert_sorted count_where
count_where-insert_sorted p e [] = refl
count_where-insert_sorted p e (d ∷ ds) = ground (arith, count_where-insert_sorted p e ds)

abbrev pub admission : ℕ → Text → Entry
admission now member = record { score = now; member = member }

-- The test of ZREMRANGEBYSCORE is the test of the window.
pub prune-is_live :
    (window now : ℕ) (es : List Entry)
    → keep (λ e. not (leb_ℤ (pos e.score) (sub_ℕ now window))) es
      ≡ keep (λ e. is_live window now e) es
unfolding keep
prune-is_live window now [] = refl
prune-is_live window now (e ∷ es) = ground (arith, prune-is_live window now es)

pub All-insert_sorted {κ} :
    (P : Entry → Type κ) (e : Entry) (es : List Entry) → P e → All P es → All P (insert_sorted e es)
unfolding insert_sorted
All-insert_sorted P e [] h k = (h, tt)
All-insert_sorted P e (d ∷ ds) h k = elim (Bool-cases (precedes d e)) [
  | inl before ↦ rw (before, insert_sorted) (k.0, All-insert_sorted P e ds h k.1)
  | inr after ↦ rw (after, insert_sorted) (h, k)
]

-- A key does not expire before the moment.
abbrev pub Outlives : ℕ → Option ℕ → Type 0
Outlives end none = Unit {0}
Outlives end (some d) = end ≤ d

abbrev pub NotNamed : Text → Entry → Type 0
NotNamed member e = has_member member e ≡ false

-- The sorted set as an implementation of a log of admissions: of the entries that are live, it
-- holds those of the log, as often.
pub record Holds (window now : ℕ) (es : List Entry) (expiry : Option ℕ) (log : List Entry)
    : Type 0 where
  pub covers :
      (p : Entry → Bool)
      → ((e : Entry) → p e ≡ true → is_live window now e ≡ true)
      → count_where p es ≡ count_where p log
  pub past : All (λ e. e.score ≤ now) es
  pub lasting : All (λ e. Outlives (e.score + window) expiry) es
  pub known : (member : Text) → All (NotNamed member) log → All (NotNamed member) es

-- Time passes, and the key expires or does not.
pub Holds-later :
    (window now later : ℕ) (es : List Entry) (expiry : Option ℕ) (log : List Entry)
    → now ≤ later
    → Holds window now es expiry log
    → Holds window later
        (if is_over expiry later then [] else es)
        (if is_over expiry later then none else expiry)
        log
unfolding count_where
Holds-later window now later es expiry log h r = elim (Bool-cases (is_over expiry later)) [
  | inl over ↦ rw over (record {
    covers = λ p g. sym (gone p g over) ∙ r.covers p (λ e f. ground (arith, g e f));
    past = tt;
    lasting = tt;
    known = λ member fresh. tt;
  })
  | inr alive ↦ rw alive (record {
    covers = λ p g. r.covers p (λ e f. ground (arith, g e f));
    past = All-map es (λ e p. omega arith) r.past;
    lasting = r.lasting;
    known = r.known;
  })
]
  where
    ended :
        (o : Option ℕ) (t end : ℕ) → later ≤ t → is_over o later ≡ true → Outlives end o → end ≤ t
    ended none t end le over out = cc
    ended (some d) t end le over out = ground arith

    gone :
        (p : Entry → Bool)
        → ((e : Entry) → p e ≡ true → is_live window later e ≡ true)
        → is_over expiry later ≡ true
        → count_where p es ≡ 0
    gone p h over = count_where-none p es (All-map es (λ e out. not_counted e out) r.lasting)
      where
        not_counted : (e : Entry) → Outlives (e.score + window) expiry → p e ≡ false
        not_counted e out = elim (Bool-cases (p e)) [
          | inl f ↦
              ground (arith, h e f, ended expiry later (e.score + window) (omega arith) over out)
          | inr f ↦ f
        ]

lasting_pruned :
    (window now : ℕ) (es : List Entry)
    → All (λ e. e.score ≤ now) es
    → All (λ e. Outlives (e.score + window) (kept_expiry es (some (now + window)))) es
lasting_pruned window now [] h = tt
lasting_pruned window now (e ∷ es) h = All-map (e ∷ es) (λ d p. omega arith) h

pub Holds-pruned :
    (window now : ℕ) (es : List Entry) (expiry : Option ℕ) (log : List Entry)
    → Holds window now es expiry log
    → Holds window now
        (keep (is_live window now) es)
        (kept_expiry (keep (is_live window now) es) (some (now + window)))
        log
Holds-pruned window now es expiry log r = record {
  covers = λ p h. count_where-keep p (is_live window now) es h ∙ r.covers p h;
  past = All-keep _ (is_live window now) es r.past;
  lasting = lasting_pruned window now _ (All-keep _ (is_live window now) es r.past);
  known = λ member fresh. All-keep _ (is_live window now) es (r.known member fresh);
}

lasting_added :
    (window now : ℕ) (member : Text) (es : List Entry)
    → All (λ e. e.score ≤ now) es
    → All
        (λ d. Outlives (d.score + window) (kept_expiry es (kept_expiry es (some (now + window)))))
        (insert_sorted (admission now member) es)
unfolding insert_sorted
lasting_added window now member [] h = (tt, tt)
lasting_added window now member (e ∷ es) h =
    All-insert_sorted _ _ (e ∷ es) (omega arith) (All-map (e ∷ es) (λ d p. omega arith) h)

pub Holds-added :
    (window now : ℕ) (member : Text) (es : List Entry) (log : List Entry)
    → Holds window now es (kept_expiry es (some (now + window))) log
    → Holds window now
        (insert_sorted (admission now member) es)
        (kept_expiry es (kept_expiry es (some (now + window))))
        (admission now member ∷ log)
unfolding count_where
Holds-added window now member es log r = record {
  covers =
      λ p h. omega (arith, count_where-insert_sorted p (admission now member) es, r.covers p h);
  past = All-insert_sorted _ _ es (omega arith) r.past;
  lasting = lasting_added window now member es r.past;
  known = λ m fresh. All-insert_sorted _ _ es fresh.0 (r.known m fresh.1);
}

-- The specification: a log of all admissions, and a call that is admitted when fewer than the
-- maximum of them are inside the window.
unfoldable pub log_allow : ℕ → ℤ → ℕ → Text → List Entry → List Entry × Bool × ℕ
log_allow window max now member log =
    let live = count_where (is_live window now) log in
    if leb_ℤ max (pos live)
    then (log, false, live)
    else (admission now member ∷ log, true, live + 1)
