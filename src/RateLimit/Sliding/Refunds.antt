-- ===== src/RateLimit/Sliding/Refunds.antt =====
-- internal/ratelimit/sliding.go: what `Release` gives back, and the expiry of a key.
use stash_it_backend.Base.{
  ℕ, ◌+◌, ◌≤◌, ◌≡◌, sym, ap, ◌∙◌, List, [], ◌∷◌, false, not, Option, none, some, if◌then◌else◌,
  arith, inl, inr, Bool-cases, subst, All, All-map, keep, count_where, All-keep, All-keep_self,
  count_where-keep_and, keep-All, keep-none,
}
use stash_it_backend.Base.Int.{pos, leb_ℤ}
use stash_it_backend.Base.Text.{Text, text_eq, text_eq_sound, text_eq_refl}
use stash_it_backend.RateLimit.SortedSets.{
  SortedSets, Entry, kept_expiry, has_member, is_empty, is_over, insert_sorted,
}
use stash_it_backend.RateLimit.Reply.{Policy, delivered, validate}
use stash_it_backend.RateLimit.Sliding.{
  sliding_allow, window_ms, admit_to_sliding_window, prune, refund_sliding_window, sliding_release,
}
use stash_it_backend.RateLimit.Sliding.Log.{
  is_live, admission, NotNamed, Outlives, Holds, log_allow,
}
use stash_it_backend.RateLimit.Sliding.Refinement.{
  HoldsAt, HoldsAt-later, sliding_allow-log, prune-items, pruned_count-live, window_ms-pos,
}

abbrev pub without : Text → List Entry → List Entry
without member = keep (λ e. not (has_member member e))

lasting_kept :
    (window : ℕ) (es : List Entry) (expiry : Option ℕ)
    → All (λ e. Outlives (e.score + window) expiry) es
    → All (λ e. Outlives (e.score + window) (kept_expiry es expiry)) es
lasting_kept window [] expiry h = tt
lasting_kept window (e ∷ es) expiry h = h

NotNamed-without : (m : Text) (es : List Entry) → All (NotNamed m) (without m es)
NotNamed-without m es =
    All-map _ (λ e h. ground (arith, h)) (All-keep_self (λ e. not (has_member m e)) es)

-- Dropping another member hides no entry.
NotNamed-of-without :
    (m member : Text) (es : List Entry)
    → text_eq m member ≡ false
    → All (NotNamed m) (without member es)
    → All (NotNamed m) es
unfolding keep
NotNamed-of-without m member [] other h = tt
NotNamed-of-without m member (e ∷ es) other h = elim (Bool-cases (has_member member e)) [
  | inl named ↦ (
    subst (λ t. text_eq m t ≡ false) (text_eq_sound member e.member named) other,
    NotNamed-of-without m member es other (rw (named, keep) at h),
  )
  | inr kept ↦
      let h' : NotNamed m e × All (NotNamed m) (without member es) = rw (kept, keep) at h in
      (h'.0, NotNamed-of-without m member es other h'.1)
]

Holds-without :
    (window now : ℕ) (member : Text) (es : List Entry) (expiry : Option ℕ) (log : List Entry)
    → Holds window now es expiry log
    → Holds window now
        (without member es)
        (kept_expiry (without member es) expiry)
        (without member log)
Holds-without window now member es expiry log r = record {
  covers = λ p h.
      count_where-keep_and p _ es
      ∙ r.covers _ (λ e f. h e (ground (arith, f)))
      ∙ sym (count_where-keep_and p _ log);
  past = All-keep _ _ es r.past;
  lasting = lasting_kept window _ expiry (All-keep _ _ es r.lasting);
  known = λ m fresh. elim (Bool-cases (text_eq m member)) [
    | inl same ↦
        subst (λ t. All (NotNamed m) (without t es)) (text_eq_sound m member same)
          (NotNamed-without m es)
    | inr other ↦ All-keep _ _ es (r.known m (NotNamed-of-without m member log other fresh))
  ];
}

-- A set that holds nothing has no entry for an expiry to outlast.
Holds-empty :
    (window now : ℕ) (expiry expiry' : Option ℕ) (log : List Entry)
    → Holds window now [] expiry log
    → Holds window now [] expiry' log
Holds-empty window now expiry expiry' log r = record {
  covers = r.covers;
  past = tt;
  lasting = tt;
  known = λ m fresh. tt;
}

module _ (redis : SortedSets) where
  open redis use {
    Store, items, expiry, key_exists, zrem, exists_reply, zrem_items, zrem_expiry, items_later,
    zadd, zadd_items, zadd_expiry,
  }

  refund-HoldsAt :
      (window now : ℕ) (k member : Text) (s : Store) (log : List Entry)
      → HoldsAt redis window now k s log
      → HoldsAt redis window now k (refund_sliding_window redis now k member s) (without member log)
  unfolding refund_sliding_window keep
  refund-HoldsAt window now k member s log r = elim (Bool-cases (is_empty (items s now k))) [
    | inl empty ↦
        let nothing : items s now k ≡ [] = ground (arith, empty) in
        rw (exists_reply s now k, empty, refund_sliding_window, nothing)
          (Holds-empty window now none _ _
            (Holds-without window now member [] (expiry s now k) log (rw nothing at r)))
    | inr held ↦
        rw
          (
            exists_reply s now k,
            held,
            refund_sliding_window,
            zrem_expiry s now k member,
            zrem_items s now k member,
          )
          (Holds-without window now member (items s now k) (expiry s now k) log r)
  ]

  without-admission :
      (now : ℕ) (member : Text) (log : List Entry)
      → All (NotNamed member) log
      → without member (admission now member ∷ log) ≡ log
  unfolding keep
  without-admission now member log fresh =
      rw (text_eq_refl member, keep) (keep-All _ log (All-map log (λ e h. ground (arith, h)) fresh))

  -- A release takes exactly its own admission out of the log, whatever else was admitted between;
  -- one that names nothing recorded changes no count, so a second release does nothing.
  pub sliding_release-log :
      (window before now : ℕ) (k member : Text) (s : Store) (log : List Entry)
      → before ≤ now
      → HoldsAt redis window before k s log
      → HoldsAt redis window now k
          (sliding_release redis delivered now k (some member) s).0
          (without member log)
  unfolding sliding_release
  sliding_release-log window before now k member s log le r =
      refund-HoldsAt window now k member s log (HoldsAt-later redis window before now k s log le r)

  -- A call and, later, the release of its admission leave the budget as if there had been neither:
  -- the log of admissions that the store stands for is the one from before the call.
  pub sliding_release-allow :
      (before now later : ℕ) (k member : Text) (p : Policy) (s : Store) (log : List Entry)
      → validate p ≡ none
      → before ≤ now
      → now ≤ later
      → All (NotNamed member) log
      → HoldsAt redis (window_ms p) before k s log
      → HoldsAt redis
          (window_ms p)
          later
          k
          (sliding_release redis delivered later k
            (some member)
            (sliding_allow redis delivered now k (some member) p s).0).0
          log
  unfolding log_allow
  sliding_release-allow before now later k member p s log valid le le' fresh r =
      let (held, _, _, _, _, _) =
        sliding_allow-log redis before now k member p s log valid le fresh r in
      let after = sliding_release-log (window_ms p) now later k member _ _ le' held in
      subst (HoldsAt redis (window_ms p) later k _) log_eq after
    where
      log_eq : without member (log_allow (window_ms p) p.max now member log).0 ≡ log
      log_eq = elim (Bool-cases (leb_ℤ p.max (pos (count_where (is_live (window_ms p) now) log)))) [
        | inl full ↦
            rw (full, log_allow) (keep-All _ log (All-map log (λ e h. ground (arith, h)) fresh))
        | inr free ↦ rw (free, log_allow) (without-admission now member log fresh)
      ]

  module _ (now : ℕ) (k member : Text) (p : Policy) (s : Store) (valid : validate p ≡ none)
      (quiet : count_where (is_live (window_ms p) now) (items s now k) ≡ 0) where
    pruned : Store
    pruned = prune redis now k (window_ms p) s

    pruned-items : items pruned now k ≡ []
    unfolding pruned
    pruned-items =
        prune-items redis now (window_ms p) k s (window_ms-pos redis p valid)
        ∙ keep-none _ (items s now k) quiet

    admitted_store :
        (sliding_allow redis delivered now k (some member) p s).0 ≡ zadd now k now member pruned
    unfolding sliding_allow admit_to_sliding_window pruned validate
    admitted_store = ground (arith, valid, quiet, pruned_count-live redis now (window_ms p) k s)

    zadd-items : items (zadd now k now member pruned) now k ≡ admission now member ∷ []
    unfolding insert_sorted
    zadd-items =
        zadd_items pruned now k now member (rw pruned-items tt) ∙ ap (insert_sorted _) pruned-items

    zadd-expiry : expiry (zadd now k now member pruned) now k ≡ none
    zadd-expiry =
        zadd_expiry pruned now k now member
        ∙ ap (λ es. kept_expiry es (expiry pruned now k)) pruned-items

    -- A call that finds no live entry is admitted, and the key that it writes has no expiry:
    -- unless another call comes, the entry is stored at every later moment, also long after it
    -- left the window.
    pub sliding_allow_stays :
        (later : ℕ)
        → now ≤ later
        → let s' = (sliding_allow redis delivered now k (some member) p s).0 in
          (expiry s' now k ≡ none) × (items s' later k ≡ admission now member ∷ [])
    sliding_allow_stays later le = rw (admitted_store) (
      zadd-expiry,
      items_later (zadd now k now member pruned) now later k le
          ∙ ap (λ d. if is_over d later then [] else items (zadd now k now member pruned) now k)
              zadd-expiry
          ∙ zadd-items,
    )
