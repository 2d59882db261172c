-- ===== src/Worker/Enrichment/Tasks.antt =====
-- internal/worker/enrichment (service.go and handler.go): the whole task.
use stash_it_backend.Base.{
  ℕ, ◌≡◌, refl, ap, ◌∙◌, ◌⊎◌, inl, inr, Bool, true, false, Bool-cases, List, [], ◌∷◌, map, some,
  Option-cases, ◌==◌, Result, ok, err, Result-cases, find, keep, arith,
}
use stash_it_backend.Base.Text.{Text}
use stash_it_backend.Worker.Enrichment.{
  PageError, Metadata, completed, failed, SavedItemRow, StatementReply, answered, refused, lost,
  WorkerError, saved_item_not_found, internal, page_failed, complete_row, fail_row, update_row,
  get_saved_item, complete_saved_item_enrichment, fail_saved_item_enrichment, has_platform,
  Organizer, no_organizer, accepts, rejects, Meeting, schedule_organization, meanwhile,
  record_outcome, enrich_saved_item, archived, is_permanent, task_end, handle_enrichment,
}
use stash_it_backend.Worker.Enrichment.Effects.{
  frame, others, update_row-others, update_row-frame, update_row-found,
}

complete_frame :
    (now : ℕ) (m : Metadata) (x : SavedItemRow) → frame (complete_row now m x) ≡ frame x
unfolding complete_row
complete_frame now m x = refl

fail_frame : (x : SavedItemRow) → frame (fail_row x) ≡ frame x
unfolding fail_row
fail_frame x = refl

module _ (d : Meeting) (i : ℕ) (rows : List SavedItemRow) where
  -- The rows after the answer of a page.
  record_outcome-rows :
      (page : Result PageError Metadata)
      → ((record_outcome d i page rows).1 ≡ (fail_saved_item_enrichment d.write i rows).1)
        ⊎ ((m : Metadata) × ((record_outcome d i page rows).1
              ≡ (complete_saved_item_enrichment d.write d.now i m rows).1))
  unfolding record_outcome complete_saved_item_enrichment fail_saved_item_enrichment
  record_outcome-rows (err e) = elim (Result-cases (fail_saved_item_enrichment d.write i rows).0) [
    | inl (x, q) ↦ inl (rw (record_outcome, q) refl)
    | inr (e', q) ↦ inl (rw (record_outcome, q) refl)
  ]
  record_outcome-rows (ok m) =
      elim (Result-cases (complete_saved_item_enrichment d.write d.now i m rows).0) [
        | inl (x, q) ↦ inr (m, rw (record_outcome, q) refl)
        | inr (e', q) ↦ inr (m, rw (record_outcome, q) refl)
      ]

  record_outcome-others :
      (page : Result PageError Metadata) → others i (record_outcome d i page rows).1 ≡ others i rows
  unfolding fail_saved_item_enrichment complete_saved_item_enrichment
  record_outcome-others page = elim (record_outcome-rows page) [
    | inl q ↦ ap (others i) q ∙ update_row-others i fail_row fail_frame d.write rows
    | inr (m, q) ↦
        ap (others i) q
        ∙ update_row-others i (complete_row d.now m) (complete_frame d.now m) d.write rows
  ]

  record_outcome-frame :
      (page : Result PageError Metadata)
      → map frame (record_outcome d i page rows).1 ≡ map frame rows
  unfolding fail_saved_item_enrichment complete_saved_item_enrichment
  record_outcome-frame page = elim (record_outcome-rows page) [
    | inl q ↦ ap (map frame) q ∙ update_row-frame i fail_row fail_frame d.write rows
    | inr (m, q) ↦
        ap (map frame) q
        ∙ update_row-frame i (complete_row d.now m) (complete_frame d.now m) d.write rows
  ]

keep_twice : (i : ℕ) (rows : List SavedItemRow) → others i (others i rows) ≡ others i rows
unfolding keep
keep_twice i [] = refl
keep_twice i (x ∷ rows) = elim (Bool-cases (x.id == i)) [
  | inl e ↦ rw e (keep_twice i rows)
  | inr e ↦ rw (e, e, keep_twice i rows) refl
]

others-meanwhile :
    (b : Bool) (i : ℕ) (rows : List SavedItemRow) → others i (meanwhile b i rows) ≡ others i rows
others-meanwhile true i rows = keep_twice i rows
others-meanwhile false i rows = refl

-- Whatever the page answers and whatever goes wrong: every other saved item stays as it is, and no
-- item changes its id, owner, URL or collection, unless the item of the task was deleted meanwhile.
pub enrich_saved_item-others :
    (d : Meeting) (page : Text → Result PageError Metadata) (i : ℕ) (rows : List SavedItemRow)
    → (others i (enrich_saved_item d page i rows).1 ≡ others i rows)
      × ((map frame (enrich_saved_item d page i rows).1 ≡ map frame rows)
          ⊎ (map frame (enrich_saved_item d page i rows).1 ≡ map frame (others i rows)))
unfolding enrich_saved_item
enrich_saved_item-others d page i rows = elim (Result-cases (get_saved_item d.load i rows)) [
  | inr (e, q) ↦ rw (enrich_saved_item, q) (refl, inl refl)
  | inl (x, q) ↦
      rw (enrich_saved_item, q)
        (
          record_outcome-others d i (meanwhile d.deleted_meanwhile i rows) (page x.url)
              ∙ others-meanwhile d.deleted_meanwhile i rows,
          elim (Bool-cases d.deleted_meanwhile) [
            | inl b ↦ inr (
                record_outcome-frame d i (meanwhile d.deleted_meanwhile i rows) (page x.url)
                ∙ rw b refl)
            | inr b ↦ inl (
                record_outcome-frame d i (meanwhile d.deleted_meanwhile i rows) (page x.url)
                ∙ rw b refl)
          ],
        )
]

schedule_queued :
    (o : Organizer) (m : Metadata) (x : SavedItemRow) (j u : ℕ)
    → schedule_organization o m x ≡ some (j, u)
    → (has_platform m ≡ true) × (x.id ≡ j) × (x.user_id ≡ u)
unfolding schedule_organization
schedule_queued no_organizer m x j u h = cc
schedule_queued accepts m x j u h = elim (Bool-cases (has_platform m)) [
  | inl e ↦ (e, ground (arith, rw e at h), ground (arith, rw e at h))
  | inr e ↦ cc (rw e at h)
]
schedule_queued rejects m x j u h = cc

-- An error of a statement archives no task.
update_row_retried :
    (i : ℕ) (f : SavedItemRow → SavedItemRow) (r : StatementReply) (rows : List SavedItemRow)
    (e : WorkerError)
    → (update_row r i f rows).0 ≡ err e
    → ¬ (task_end (err e) ≡ archived)
unfolding update_row task_end is_permanent
update_row_retried i f r rows saved_item_not_found q h = cc
update_row_retried i f r rows internal q h = cc
update_row_retried i f answered rows (page_failed e) q h =
    elim (Option-cases (find (λ x. x.id == i) rows)) [
      | inl n ↦ cc (rw (update_row, n) at q)
      | inr (x, n) ↦ cc (rw (update_row, n) at q)
    ]
update_row_retried i f refused rows (page_failed e) q h = cc
update_row_retried i f lost rows (page_failed e) q h = cc

get_saved_item_retried :
    (i : ℕ) (r : StatementReply) (rows : List SavedItemRow) (e : WorkerError)
    → get_saved_item r i rows ≡ err e
    → ¬ (task_end (err e) ≡ archived)
unfolding get_saved_item task_end is_permanent
get_saved_item_retried i r rows saved_item_not_found q h = cc
get_saved_item_retried i r rows internal q h = cc
get_saved_item_retried i answered rows (page_failed e) q h =
    elim (Option-cases (find (λ x. x.id == i) rows)) [
      | inl n ↦ cc (rw (get_saved_item, n) at q)
      | inr (x, n) ↦ cc (rw (get_saved_item, n) at q)
    ]
get_saved_item_retried i refused rows (page_failed e) q h = cc
get_saved_item_retried i lost rows (page_failed e) q h = cc

-- A row as a completed enrichment with a platform leaves it.
pub record IsOrganizable (j u : ℕ) (y : SavedItemRow) : Type 0 where
  pub status : y.enrichment_status ≡ completed
  pub platform : has_platform y.metadata ≡ true
  pub id : y.id ≡ j
  pub owner : y.user_id ≡ u

module _ (d : Meeting) (i : ℕ) (rows : List SavedItemRow) where
  record_outcome-queued :
      (page : Result PageError Metadata) (j u : ℕ)
      → (record_outcome d i page rows).2 ≡ some (j, u)
      → (y : SavedItemRow) × (find (λ x. x.id == i) (record_outcome d i page rows).1 ≡ some y)
        × IsOrganizable j u y
  unfolding record_outcome complete_saved_item_enrichment fail_saved_item_enrichment complete_row
  record_outcome-queued (err e) j u h = elim (Result-cases (update_row d.write i fail_row rows).0) [
    | inl (x, q) ↦ cc (rw (record_outcome, q) at h)
    | inr (e', q) ↦ cc (rw (record_outcome, q) at h)
  ]
  record_outcome-queued (ok m) j u h =
      elim (Result-cases (update_row d.write i (complete_row d.now m) rows).0) [
        | inr (e', q) ↦ cc (rw (record_outcome, q) at h)
        | inl (x, q) ↦
            let known = schedule_queued d.organizer m x j u (rw (record_outcome, q) at h) in
            (
              complete_row d.now m x,
              rw (record_outcome, q)
                  (update_row-found i (complete_row d.now m) (complete_frame d.now m) d.write rows x
                    q).1,
              record { status = refl; platform = known.0; id = known.1; owner = known.2 },
            )
      ]

  record_outcome-archived :
      (page : Result PageError Metadata)
      → task_end (record_outcome d i page rows).0 ≡ archived
      → (y : SavedItemRow) × (find (λ x. x.id == i) (record_outcome d i page rows).1 ≡ some y)
        × (y.enrichment_status ≡ failed)
  unfolding record_outcome complete_saved_item_enrichment fail_saved_item_enrichment fail_row
      task_end is_permanent
  record_outcome-archived (err e) h = elim (Result-cases (update_row d.write i fail_row rows).0) [
    | inr (e', q) ↦
        absurd (update_row_retried i fail_row d.write rows e' q (rw (record_outcome, q) at h))
    | inl (x, q) ↦ (
      fail_row x,
      rw (record_outcome, q) (update_row-found i fail_row fail_frame d.write rows x q).1,
      refl,
    )
  ]
  record_outcome-archived (ok m) h =
      elim (Result-cases (update_row d.write i (complete_row d.now m) rows).0) [
        | inr (e', q) ↦ absurd (
            update_row_retried i (complete_row d.now m) d.write rows e' q
              (rw (record_outcome, q) at h))
        | inl (x, q) ↦ cc (rw (record_outcome, q) at h)
      ]

-- An organization task is scheduled only for the item of the task, in the name of its owner, and
-- only when the item is stored as completed with a platform.
pub enrich_saved_item-queued :
    (d : Meeting) (page : Text → Result PageError Metadata) (i : ℕ) (rows : List SavedItemRow)
    (j u : ℕ)
    → (enrich_saved_item d page i rows).2 ≡ some (j, u)
    → (y : SavedItemRow) × (find (λ x. x.id == i) (enrich_saved_item d page i rows).1 ≡ some y)
      × IsOrganizable j u y
unfolding enrich_saved_item
enrich_saved_item-queued d page i rows j u h = elim (Result-cases (get_saved_item d.load i rows)) [
  | inr (e, q) ↦ cc (rw (enrich_saved_item, q) at h)
  | inl (x, q) ↦
      rw (enrich_saved_item, q)
        (record_outcome-queued d i (meanwhile d.deleted_meanwhile i rows) (page x.url) j u
          (rw (enrich_saved_item, q) at h))
]

-- A task that is archived because no further attempt could help is stored as failed.
pub handle_enrichment-archived :
    (d : Meeting) (page : Text → Result PageError Metadata) (i : ℕ) (rows : List SavedItemRow)
    → (i == 0) ≡ false
    → (handle_enrichment d page i rows).0 ≡ archived
    → (y : SavedItemRow) × (find (λ x. x.id == i) (handle_enrichment d page i rows).1 ≡ some y)
      × (y.enrichment_status ≡ failed)
unfolding handle_enrichment enrich_saved_item
handle_enrichment-archived d page i rows n h =
    rw n (elim (Result-cases (get_saved_item d.load i rows)) [
      | inr (e, q) ↦
          absurd
            (get_saved_item_retried i d.load rows e q (rw (enrich_saved_item, q) at (rw n at h)))
      | inl (x, q) ↦
          rw (enrich_saved_item, q)
            (record_outcome-archived d i (meanwhile d.deleted_meanwhile i rows) (page x.url)
              (rw (enrich_saved_item, q) at (rw n at h)))
    ])
