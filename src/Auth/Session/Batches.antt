-- ===== src/Auth/Session/Batches.antt =====
-- internal/api/auth/session/service.go: the loop of `CleanupSessions`.
use stash_it_backend.Base.{
  ℕ, suc, ◌+◌, ◌-◌, ◌*◌, ◌<◌, ◌≤◌, ◌≡◌, refl, true, Result, ok, ltb, lt→ltb, ◌==◌,
}
use stash_it_backend.Auth.Session.{Session, Store}
use stash_it_backend.Auth.Session.Repository.{SessionError, delete_eligible}
use stash_it_backend.Auth.Session.Service.{
  Meeting, CleanupResult, clean, session_idle_lifetime, session_cleanup_batch_size,
  session_cleanup_max_batches,
}

-- What a run of the loop reports.
pub record Swept (batches fuel deleted : ℕ) (r : CleanupResult) : Type 0 where
  pub at_most : r.batches ≤ batches + fuel
  pub at_least : batches ≤ r.batches
  pub upper : r.deleted_sessions ≤ deleted + (r.batches - batches) * session_cleanup_batch_size
  pub lower : deleted + (r.batches - batches - 1) * session_cleanup_batch_size ≤ r.deleted_sessions
  pub capped : r.backlog_capped ≡ (r.batches == session_cleanup_max_batches)

-- The statement of one round of the loop.
abbrev step : (ℕ → Meeting) → ℕ → Store → Result SessionError ℕ × Store
step meets batches st =
    let m = meets batches in
    delete_eligible m.faults m.locked session_idle_lifetime m.at session_cleanup_batch_size st

-- One round, from what its statement answered.
module _ (meets : ℕ → Meeting) (fuel batches deleted : ℕ) (st : Store) where
  clean-last :
      (n : ℕ)
      → (step meets batches st).0 ≡ ok n
      → ltb n session_cleanup_batch_size ≡ true
      → (clean meets (suc fuel) batches deleted st).0
        ≡ ok (record {
          deleted_sessions = deleted + n;
          batches = suc batches;
          backlog_capped = suc batches == session_cleanup_max_batches;
        })
  unfolding clean
  clean-last n q b = rw (clean, q, b) refl

-- When the hundredth batch comes back short, so that nothing eligible was left for it to take, the
-- execution still reports a capped backlog.
pub clean-capped_short :
    (meets : ℕ → Meeting) (deleted n : ℕ) (st : Store)
    → (delete_eligible
        (meets 99).faults
        (meets 99).locked
        session_idle_lifetime
        (meets 99).at
        session_cleanup_batch_size
        st).0
      ≡ ok n
    → n < session_cleanup_batch_size
    → (clean meets 1 99 deleted st).0
      ≡ ok (record {
        deleted_sessions = deleted + n;
        batches = session_cleanup_max_batches;
        backlog_capped = true;
      })
clean-capped_short meets deleted n st q h = clean-last meets 0 99 deleted st n q (lt→ltb _ _ h)
