-- ===== src/Worker/Organization/Handler.antt =====
-- internal/worker/organization/handler.go, service.go and error_codes.go: what the end of a task
-- means for the queue.
use stash_it_backend.Base.{ℕ, Bool, true, false, ◌||◌, ◌==◌, if◌then◌else◌, Result, ok, err}
use stash_it_backend.Base.Text.{Text}
use stash_it_backend.Worker.Organization.{Store, Outcome}
use stash_it_backend.Worker.Organization.Repository.{
  OrganizationError, internal, saved_item_not_found, ownership_mismatch, name_reserved, Meeting,
  organize_saved_item,
}

-- The payload of a task; `uuid.Nil` is 0.
pub data Payload : Type 0 where
  unreadable : Payload
  readable : (saved_item_id user_id : ℕ) → Payload

-- A nil error, an error that wraps `asynq.SkipRetry`, and any other error.
pub data TaskResult : Type 0 where
  finished : TaskResult
  archived : TaskResult
  retried : TaskResult

unfoldable pub is_integrity_failure : OrganizationError → Bool
is_integrity_failure internal = false
is_integrity_failure saved_item_not_found = false
is_integrity_failure ownership_mismatch = true
is_integrity_failure name_reserved = true

unfoldable pub task_result : Result OrganizationError Outcome → TaskResult
task_result (ok o) = finished
task_result (err saved_item_not_found) = finished
task_result (err internal) = if is_integrity_failure internal then archived else retried
task_result (err ownership_mismatch) =
    if is_integrity_failure ownership_mismatch then archived else retried
task_result (err name_reserved) = if is_integrity_failure name_reserved then archived else retried

-- `Handler.OrganizeSavedItem`; the service adds only log lines.
unfoldable pub handle :
    (lower fold : Text → Text) → Meeting → ℕ → Payload → Store → TaskResult × Store
handle lower fold d new unreadable st = (archived, st)
handle lower fold d new (readable i user) st =
    if (i == 0) || (user == 0)
    then (archived, st)
    else let (r, s) = organize_saved_item lower fold d new i user st in (task_result r, s)
