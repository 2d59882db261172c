-- ===== src/Worker/Organization/Answers.antt =====
-- internal/worker/organization: why a task ends as it does.
use stash_it_backend.Base.{
  ℕ, ◌≡◌, refl, subst, Bool, true, false, not, ◌||◌, Bool-cases, inl, inr, some, ◌==◌,
  if◌then◌else◌, Result, ok, err, Result-cases, arith,
}
use stash_it_backend.Base.Text.{Text}
use stash_it_backend.Database.{Connection}
use stash_it_backend.Database.Rules.{
  execute-bind, read-bind, bind-rule, option-rule, commit-bind, if-rule, transaction-rule,
}
use stash_it_backend.Worker.Organization.{
  platform_text, Collection, Store, LockedItem, is_in_unsorted, has_platform,
  is_enrichment_completed, Outcome, moved, collection_created, already_organized, not_in_unsorted,
  no_platform, enrichment_not_completed, lock_saved_item,
}
use stash_it_backend.Worker.Organization.Repository.{
  OrganizationError, begins, internal, saved_item_not_found, ownership_mismatch, name_reserved,
  locks, Meeting, create_or_get_collection, finish, file, decide, organize_saved_item,
}
use stash_it_backend.Worker.Organization.Effects.{
  Effect, untouched, filed, organize_saved_item-Effect,
}
use stash_it_backend.Worker.Organization.Handler.{
  Payload, unreadable, readable, archived, retried, task_result, is_integrity_failure, handle,
}

-- What an outcome says of the locked item.
abbrev pub Reason : Outcome → LockedItem → Type 0
Reason enrichment_not_completed l = is_enrichment_completed l ≡ false
Reason no_platform l = (is_enrichment_completed l ≡ true) × (has_platform l ≡ false)
Reason not_in_unsorted l =
    (is_enrichment_completed l ≡ true) × (has_platform l ≡ true) × (is_in_unsorted l ≡ false)
Reason already_organized l =
    (is_enrichment_completed l ≡ true) × (has_platform l ≡ true) × (is_in_unsorted l ≡ true)
Reason moved l =
    (is_enrichment_completed l ≡ true) × (has_platform l ≡ true) × (is_in_unsorted l ≡ true)
Reason collection_created l =
    (is_enrichment_completed l ≡ true) × (has_platform l ≡ true) × (is_in_unsorted l ≡ true)

answer_eq : (o o' : Outcome) → ◌≡◌ {A = Result OrganizationError Outcome} (ok o) (ok o') → o ≡ o'
answer_eq o o' h = cc

module _ (l : LockedItem) where
  record Answers (x : Result OrganizationError Outcome × Connection Store) : Type 0 where
    reason : (o : Outcome) → x.0 ≡ ok o → Reason o l

  no_answer : {e : OrganizationError} {c : Connection Store} → Answers (err e, c)
  no_answer = record { reason = λ o h. cc }

  one_answer : {o : Outcome} {c : Connection Store} → Reason o l → Answers (ok o, c)
  one_answer r = record { reason = λ o h. subst (λ z. Reason z l) (answer_eq _ o h) r }

  finish-Answers :
      (d : Meeting) (o : Outcome) (c : Connection Store) → Reason o l → Answers (finish d o c)
  unfolding finish
  finish-Answers d o c r = commit-bind Answers _ _ _ c no_answer no_answer (one_answer r)

  file-Answers :
      (d : Meeting) (i user : ℕ) (x : Collection) (created : Bool) (c : Connection Store)
      → is_enrichment_completed l ≡ true
      → has_platform l ≡ true
      → is_in_unsorted l ≡ true
      → Answers (file d i user l x created c)
  unfolding file finish
  file-Answers d i user x created c he hp hi =
      if-rule Answers (l.item.collection_id == x.id) _ _ c
        (λ _. finish-Answers d already_organized c (he, hp, hi))
        (λ _.
          execute-bind Answers _ _ _ _ _ c (λ _. no_answer) (λ _ _. no_answer)
            (λ b s _ _.
              if-rule Answers b _ _ _
                (λ _.
                  commit-bind Answers _ _ _ _ no_answer no_answer
                    (one_answer (filed-Reason created)))
                (λ _. no_answer)))
    where
      filed-Reason : (b : Bool) → Reason (if b then collection_created else moved) l
      filed-Reason true = (he, hp, hi)
      filed-Reason false = (he, hp, hi)

  decide-Answers :
      (lower fold : Text → Text) (d : Meeting) (new i user : ℕ) (c : Connection Store)
      → Answers (decide lower fold d new i user l c)
  unfolding decide
  decide-Answers lower fold d new i user c =
      if-rule Answers (not (l.item.user_id == user)) _ _ c (λ _. no_answer)
        (λ hu.
          if-rule Answers (not (is_enrichment_completed l)) _ _ c
            (λ he. finish-Answers d _ c (ground arith))
            (λ he.
              if-rule Answers (not (has_platform l)) _ _ c
                (λ hp. finish-Answers d _ c (ground arith, ground arith))
                (λ hp.
                  if-rule Answers (not (is_in_unsorted l)) _ _ c
                    (λ hi. finish-Answers d _ c (ground arith, ground arith, ground arith))
                    (λ hi.
                      bind-rule Answers
                        (create_or_get_collection lower fold d new user
                          (platform_text l.item.platform))
                        _ c (λ e _. no_answer)
                        (λ t _.
                          file-Answers d i user t.0 t.1 _ (ground arith) (ground arith)
                            (ground arith))))))

module _ (i : ℕ) (st : Store) where
  record Explained (x : Result OrganizationError Outcome × Store) : Type 0 where
    explains :
        (o : Outcome) → x.0 ≡ ok o → (l : LockedItem) × (lock_saved_item i st ≡ some l) × Reason o l

  no_explanation : {e : OrganizationError} {s : Store} → Explained (err e, s)
  no_explanation = record { explains = λ o h. cc }

  -- The outcome of a task is the true reason, read from the locked item: it tells an enrichment
  -- that did not complete, a missing platform and an item that was filed elsewhere apart, in this
  -- order, and all others are for items of Unsorted.
  pub organize_saved_item-Reason :
      (lower fold : Text → Text) (d : Meeting) (new user : ℕ) (o : Outcome)
      → (organize_saved_item lower fold d new i user st).0 ≡ ok o
      → (l : LockedItem) × (lock_saved_item i st ≡ some l) × Reason o l
  unfolding organize_saved_item
  organize_saved_item-Reason lower fold d new user o h =
      (transaction-rule Explained (d.fails begins) internal _ st (λ _. no_explanation)
          (λ _.
            read-bind (λ x. Explained (x.0, x.1.durable)) (d.fails locks) _ _ (lock_saved_item i) _
              _ no_explanation
              (option-rule (λ x. Explained (x.0, x.1.durable)) (lock_saved_item i st) _ _ _
                (λ l e. record {
                  explains = λ o' h'. (
                    l,
                    e,
                    (decide-Answers l lower fold d new i user
                          (record { durable = st; view = st })).reason
                        o' h',
                  );
                })
                (λ _. no_explanation)))).explains
        o h

archived_untouched :
    (i user : ℕ) (st : Store) (x : Result OrganizationError Outcome × Store)
    → Effect i user st x
    → task_result x.0 ≡ archived
    → x.1.items ≡ st.items
unfolding task_result is_integrity_failure
archived_untouched i user st x (untouched r s e _) h = e
archived_untouched i user st x (filed l target r s _ _ _ _ _ _ _ ho he) h = elim (Result-cases r) [
  | inl (o, q) ↦ cc (rw q at h)
  | inr (e, q) ↦ cc (rw (he e q) at (rw q at h))
]

-- A task that is archived, so that a person has to look at it, left every saved item as it was.
pub handle-archived :
    (lower fold : Text → Text) (d : Meeting) (new : ℕ) (payload : Payload) (st : Store)
    → (handle lower fold d new payload st).0 ≡ archived
    → (handle lower fold d new payload st).1.items ≡ st.items
unfolding handle
handle-archived lower fold d new unreadable st h = refl
handle-archived lower fold d new (readable i user) st h =
    elim (Bool-cases ((i == 0) || (user == 0))) [
      | inl e ↦ rw e refl
      | inr e ↦ rw e (
          archived_untouched i user st _ (organize_saved_item-Effect lower fold d new i user st)
            (rw e at h))
    ]

retried_internal :
    (r : Result OrganizationError Outcome) → task_result r ≡ retried → r ≡ err internal
unfolding task_result is_integrity_failure
retried_internal (ok o) h = cc
retried_internal (err internal) h = refl
retried_internal (err saved_item_not_found) h = cc
retried_internal (err ownership_mismatch) h = cc
retried_internal (err name_reserved) h = cc

-- Only a task that the database failed is tried again: never one that was decided, also not by an
-- error that no retry could repair.
pub handle-retried :
    (lower fold : Text → Text) (d : Meeting) (new i user : ℕ) (st : Store)
    → (handle lower fold d new (readable i user) st).0 ≡ retried
    → (organize_saved_item lower fold d new i user st).0 ≡ err internal
unfolding handle
handle-retried lower fold d new i user st h = elim (Bool-cases ((i == 0) || (user == 0))) [
  | inl e ↦ cc (rw e at h)
  | inr e ↦ retried_internal _ (rw e at h)
]
