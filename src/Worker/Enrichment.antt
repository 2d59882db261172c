-- ===== src/Worker/Enrichment.antt =====
-- internal/worker/enrichment (types.go, queries.sql, repository.go, service.go, handler.go) and
-- internal/enrichment/errors.go: one saved item is enriched with what its page says of itself. The
-- page is an argument: what the enricher answers for a URL.
pub mod Effects
pub mod Tasks
pub mod Checks
use stash_it_backend.Base.{
  ℕ, ◌≡◌, Bool, true, false, not, List, [], ◌∷◌, Option, none, some, ◌==◌, if◌then◌else◌, Result,
  ok, err, find, update_where, keep, is_some,
}
use stash_it_backend.Base.Text.{Text, text}

pub data FailureKind : Type 0 where
  failure_fetch : FailureKind
  failure_content : FailureKind

-- An error of internal/enrichment: a sentinel or another error, or a `Failure` around one.
pub data PageError : Type 0 where
  plain : Text → PageError
  failure : FailureKind → (status_code : ℕ) → PageError → PageError

-- `newFailure` and `wrapFailure`.
unfoldable pub new_failure : FailureKind → PageError → PageError
new_failure kind e = failure kind 0 e

unfoldable pub wrap_failure : FailureKind → PageError → PageError
unfolding new_failure
wrap_failure kind (plain m) = new_failure kind (plain m)
wrap_failure kind (failure k status e) = failure k status e

-- `Kind` and `Status`.
unfoldable pub kind_of : PageError → FailureKind
kind_of (plain m) = failure_fetch
kind_of (failure k status e) = k

unfoldable pub status_of : PageError → ℕ
status_of (plain m) = 0
status_of (failure k status e) = status

pub record Metadata : Type 0 where
  pub title : Option Text
  pub platform : Option Text
  pub description : Option Text
  pub image_url : Option Text

pub data EnrichmentStatus : Type 0 where
  pending : EnrichmentStatus
  completed : EnrichmentStatus
  failed : EnrichmentStatus

-- A row of `saved_items`.
pub record SavedItemRow : Type 0 where
  pub id : ℕ
  pub user_id : ℕ
  pub url : Text
  pub collection_id : ℕ
  pub metadata : Metadata
  pub enrichment_status : EnrichmentStatus
  pub last_enriched_at : Option ℕ

-- How a statement ends; `lost` is one that took place while its caller got an error.
pub data StatementReply : Type 0 where
  answered : StatementReply
  refused : StatementReply
  lost : StatementReply

pub data WorkerError : Type 0 where
  saved_item_not_found : WorkerError
  internal : WorkerError
  page_failed : PageError → WorkerError

unfoldable pub complete_row : ℕ → Metadata → SavedItemRow → SavedItemRow
complete_row now m x = record x {
  metadata = m;
  enrichment_status = completed;
  last_enriched_at = some now;
}

unfoldable pub fail_row : SavedItemRow → SavedItemRow
fail_row x = record x { enrichment_status = failed }

-- One autocommit `UPDATE … WHERE id = …`, with the row that it returned as it was before.
unfoldable pub update_row :
    StatementReply
    → ℕ
    → (SavedItemRow → SavedItemRow)
    → List SavedItemRow
    → Result WorkerError SavedItemRow × List SavedItemRow
update_row r i f rows = elim r [
  | refused ↦ (err internal, rows)
  | lost ↦ (err internal, update_where (λ x. x.id == i) f rows)
  | answered ↦ elim (find (λ x. x.id == i) rows) [
    | none ↦ (err saved_item_not_found, rows)
    | some x ↦ (ok x, update_where (λ x. x.id == i) f rows)
  ]
]

-- `GetSavedItemForBackgroundEnrichment`.
unfoldable pub get_saved_item :
    StatementReply → ℕ → List SavedItemRow → Result WorkerError SavedItemRow
get_saved_item answered i rows = elim (find (λ x. x.id == i) rows) [
  | none ↦ err saved_item_not_found
  | some x ↦ ok x
]
get_saved_item refused i rows = err internal
get_saved_item lost i rows = err internal

-- `CompleteSavedItemEnrichment` and `FailSavedItemEnrichment`.
unfoldable pub complete_saved_item_enrichment :
    StatementReply
    → ℕ
    → ℕ
    → Metadata
    → List SavedItemRow
    → Result WorkerError SavedItemRow × List SavedItemRow
complete_saved_item_enrichment r now i m rows = update_row r i (complete_row now m) rows

unfoldable pub fail_saved_item_enrichment :
    StatementReply → ℕ → List SavedItemRow → Result WorkerError SavedItemRow × List SavedItemRow
fail_saved_item_enrichment r i rows = update_row r i fail_row rows

-- `HasPlatform`.
unfoldable pub has_platform : Metadata → Bool
has_platform m = elim m.platform [ none ↦ false | some [] ↦ false | some (c ∷ s) ↦ true ]

-- The queue, where one is configured, and whether it takes a task.
pub data Organizer : Type 0 where
  no_organizer : Organizer
  accepts : Organizer
  rejects : Organizer

-- What happens around one task: its statements, the deletion of the item while the page is read,
-- the queue and the clock.
pub record Meeting : Type 0 where
  pub load : StatementReply
  pub write : StatementReply
  pub deleted_meanwhile : Bool
  pub organizer : Organizer
  pub now : ℕ

-- A task of the organization queue: the item and its owner.
abbrev pub Queued : Type 0
Queued = Option (ℕ × ℕ)

-- `scheduleOrganization`: a failure is only logged.
unfoldable pub schedule_organization : Organizer → Metadata → SavedItemRow → Queued
schedule_organization no_organizer m x = none
schedule_organization accepts m x = if has_platform m then some (x.id, x.user_id) else none
schedule_organization rejects m x = none

abbrev pub meanwhile : Bool → ℕ → List SavedItemRow → List SavedItemRow
meanwhile deleted i rows = if deleted then keep (λ x. not (x.id == i)) rows else rows

-- What follows the page's answer.
unfoldable pub record_outcome :
    Meeting
    → ℕ
    → Result PageError Metadata
    → List SavedItemRow
    → Result WorkerError (Unit {0}) × List SavedItemRow × Queued
record_outcome d i (err e) rows =
    let (r, rows') = fail_saved_item_enrichment d.write i rows in
    elim r [ err e' ↦ (err e', rows', none) | ok x ↦ (err (page_failed e), rows', none) ]
record_outcome d i (ok m) rows =
    let (r, rows') = complete_saved_item_enrichment d.write d.now i m rows in
    elim r [
      | err e ↦ (err e, rows', none)
      | ok x ↦ (ok tt, rows', schedule_organization d.organizer m x)
    ]

-- `EnrichSavedItem` of the service.
unfoldable pub enrich_saved_item :
    Meeting
    → (Text → Result PageError Metadata)
    → ℕ
    → List SavedItemRow
    → Result WorkerError (Unit {0}) × List SavedItemRow × Queued
enrich_saved_item d page i rows = elim (get_saved_item d.load i rows) [
  | err e ↦ (err e, rows, none)
  | ok x ↦ record_outcome d i (page x.url) (meanwhile d.deleted_meanwhile i rows)
]

-- A nil error, one that wraps `asynq.SkipRetry`, and any other.
pub data TaskEnd : Type 0 where
  finished : TaskEnd
  archived : TaskEnd
  retried : TaskEnd

unfoldable pub is_permanent : FailureKind → Bool
is_permanent failure_fetch = false
is_permanent failure_content = true

unfoldable pub task_end : Result WorkerError (Unit {0}) → TaskEnd
task_end (ok u) = finished
task_end (err saved_item_not_found) = finished
task_end (err internal) = if is_permanent failure_fetch then archived else retried
task_end (err (page_failed e)) = if is_permanent (kind_of e) then archived else retried

-- `EnrichSavedItem` of the handler, on a payload that was read; `uuid.Nil` is 0.
unfoldable pub handle_enrichment :
    Meeting
    → (Text → Result PageError Metadata)
    → ℕ
    → List SavedItemRow
    → TaskEnd × List SavedItemRow × Queued
handle_enrichment d page i rows =
    if i == 0
    then (archived, rows, none)
    else let (r, rows', q) = enrich_saved_item d page i rows in (task_end r, rows', q)
