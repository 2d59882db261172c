-- ===== src/Auth/Session/Repository.antt =====
-- internal/api/auth/session/repository.go: the transactions on sessions and refresh tokens. The
-- ids that `uuidv7()` draws, the clock of the host (`now`) and of the database (`db_now`), and
-- which statements the database refuses are arguments.
use stash_it_backend.Base.{
  is_some, ℕ, zero, suc, ◌+◌, ◌-◌, Bool, not, ◌&&◌, ◌||◌, List, [], ◌∷◌, Option, some, ltb, leb,
  if◌then◌else◌, find, keep, count_where, Result, ok, err,
}
use stash_it_backend.Database.{
  CommitReply, Query, fail, answer, ◌>>=◌, ◌>>◌, execute, commit, transaction,
}
use stash_it_backend.Auth.Session.{
  Metadata, Session, RefreshToken, Store, TokenRow, session_with, select_token, insert_session,
  insert_token, replace_token, touch_session, revoke, is_revocable, delete_sessions,
}

pub data Code : Type 0 where
  refresh_token_invalid : Code
  session_revoked : Code
  session_expired : Code

-- The errors of internal/apperror that this package returns.
pub data SessionError : Type 0 where
  internal : SessionError
  not_found : SessionError
  unauthorized : Code → SessionError

pub data Statement : Type 0 where
  begins : Statement
  selects : Statement
  counts : Statement
  inserts_session : Statement
  inserts_token : Statement
  replaces : Statement
  touches : Statement
  revokes : Statement
  deletes : Statement

-- What goes wrong during one call.
pub record Faults : Type 0 where
  pub fails : Statement → Bool
  pub commit_reply : CommitReply

abbrev pub is_stale : ℕ → ℕ → Session → Bool
is_stale idle now s = ltb s.absolute_expires_at now || ltb idle (now - s.last_activity_at)

-- The conditions of `DeleteCleanupEligibleSessions`.
abbrev pub is_eligible : ℕ → ℕ → Session → Bool
is_eligible idle db_now s =
    is_some s.revoked_at
    || (leb s.absolute_expires_at db_now || ltb (s.last_activity_at + idle) db_now)

-- `ORDER BY id`.
unfoldable pub insert_by_id : Session → List Session → List Session
insert_by_id s [] = s ∷ []
insert_by_id s (x ∷ xs) = if leb s.id x.id then s ∷ x ∷ xs else x ∷ insert_by_id s xs

unfoldable pub by_id : List Session → List Session
by_id [] = []
by_id (x ∷ xs) = insert_by_id x (by_id xs)

-- `LIMIT`.
unfoldable pub take {ℓ} : {A : Type ℓ} → ℕ → List A → List A
take zero xs = []
take (suc n) [] = []
take (suc n) (x ∷ xs) = x ∷ take n xs

-- The rows that one statement of the cleanup takes.
unfoldable pub batch : (ℕ → Bool) → ℕ → ℕ → ℕ → List Session → List Session
batch locked idle db_now limit ss =
    take limit (by_id (keep (λ s. is_eligible idle db_now s && not (locked s.id)) ss))

abbrev pub is_chosen : List Session → ℕ → Bool
is_chosen chosen i = is_some (session_with i chosen)

module _ (d : Faults) where
  abbrev pub run_statement :
      {A : Type 0} → Statement → (Store → Option (A × Store)) → Query Store SessionError A
  run_statement q = execute (d.fails q) internal internal

  -- `CreateSession`.
  unfoldable pub create_session :
      ℕ
      → ℕ
      → ℕ
      → ℕ
      → Metadata
      → ℕ
      → ℕ
      → Store
      → Result SessionError (Session × RefreshToken) × Store
  create_session db_now new new_token user metadata expires hash =
      transaction (d.fails begins) internal (do
        session ← run_statement inserts_session (insert_session db_now new user metadata expires)
        token ← run_statement inserts_token (insert_token db_now new_token session.id hash)
        commit d.commit_reply internal
        answer (session, token))

  -- `RevokeSession`, the commit, and the refusal that the caller gets.
  unfoldable pub revoke_and_refuse : {A : Type 0} → ℕ → TokenRow → Code → Query Store SessionError A
  revoke_and_refuse db_now row code = do
    run_statement revokes
        (λ st. some (tt, revoke db_now row.token.session_id row.session.user_id st))
    commit d.commit_reply internal
    fail (unauthorized code)

  unfoldable pub rotate : ℕ → ℕ → ℕ → TokenRow → Query Store SessionError (TokenRow × RefreshToken)
  rotate db_now new new_hash row = do
    token ← run_statement inserts_token (insert_token db_now new row.token.session_id new_hash)
    run_statement replaces (λ st. some (tt, replace_token row.token.id token.id st))
    run_statement touches (λ st. some (tt, touch_session db_now row.token.session_id st))
    commit d.commit_reply internal
    answer (row, token)

  -- The decision on a row that is locked.
  unfoldable pub decide :
      ℕ → ℕ → ℕ → ℕ → ℕ → TokenRow → Query Store SessionError (TokenRow × RefreshToken)
  unfolding revoke_and_refuse rotate
  decide idle now db_now new new_hash row =
      if is_some row.session.revoked_at
      then fail (unauthorized session_revoked)
      else if is_some row.token.replaced_by
      then revoke_and_refuse db_now row session_revoked
      else if ltb row.session.absolute_expires_at now
      then revoke_and_refuse db_now row session_expired
      else if ltb idle (now - row.session.last_activity_at)
      then revoke_and_refuse db_now row session_expired
      else rotate db_now new new_hash row

  -- `RefreshToken`.
  unfoldable pub refresh_token :
      ℕ → ℕ → ℕ → ℕ → ℕ → ℕ → Store → Result SessionError (TokenRow × RefreshToken) × Store
  unfolding decide
  refresh_token idle now db_now new hash new_hash = transaction (d.fails begins) internal (do
    row ←
        execute (d.fails selects) internal (unauthorized refresh_token_invalid) (select_token hash)
    decide idle now db_now new new_hash row)

  -- `RevokeSession`: whether a row matched does not show.
  unfoldable pub revoke_session : ℕ → ℕ → ℕ → Store → Result SessionError (Unit {0}) × Store
  revoke_session db_now session user st =
      if d.fails revokes then (err internal, st) else (ok tt, revoke db_now session user st)

  -- `RevokeSessionForUser`: no row is an error.
  unfoldable pub revoke_session_for_user :
      ℕ → ℕ → ℕ → Store → Result SessionError (Unit {0}) × Store
  revoke_session_for_user db_now session user st =
      if d.fails revokes
      then (err internal, st)
      else if is_some (find (is_revocable session user) st.sessions)
      then (ok tt, revoke db_now session user st)
      else (err not_found, st)

  -- `DeleteCleanupEligibleSessions`, one statement: `locked` are the rows that other transactions
  -- hold. The answer is the number of deleted rows.
  unfoldable pub delete_eligible : (ℕ → Bool) → ℕ → ℕ → ℕ → Store → Result SessionError ℕ × Store
  delete_eligible locked idle db_now limit st =
      let gone = is_chosen (batch locked idle db_now limit st.sessions) in
      if d.fails deletes
      then (err internal, st)
      else (ok (count_where (λ s. gone s.id) st.sessions), delete_sessions gone st)
