-- ===== src/Auth/Session/Boundary.antt =====
-- internal/api/auth/session: the moment at which a session's absolute lifetime ends.
use stash_it_backend.Base.{ℕ, ◌-◌, ◌≤◌, ◌≡◌, refl, true, false, none, some, ok, ltb, is_some, arith}
use stash_it_backend.Auth.Session.{Store, TokenRow, RefreshToken, select_token, insert_token}
use stash_it_backend.Auth.Session.Repository.{
  Faults, Statement, begins, selects, inserts_token, replaces, touches, is_eligible, refresh_token,
  decide, rotate,
}
use stash_it_backend.Database.{committed, execute, commit, transaction}

-- An undisturbed refresh with a current token succeeds.
refresh_token-accepts :
    (d : Faults) (idle now db_now new hash new_hash : ℕ) (st s : Store) (row : TokenRow)
    (t : RefreshToken)
    → select_token hash st ≡ some (row, st)
    → is_some row.session.revoked_at ≡ false
    → is_some row.token.replaced_by ≡ false
    → ltb row.session.absolute_expires_at now ≡ false
    → ltb idle (now - row.session.last_activity_at) ≡ false
    → insert_token db_now new row.token.session_id new_hash st ≡ some (t, s)
    → ((q : Statement) → d.fails q ≡ false)
    → d.commit_reply ≡ committed
    → (refresh_token d idle now db_now new hash new_hash st).0 ≡ ok (row, t)
unfolding refresh_token decide rotate execute commit transaction
refresh_token-accepts d idle now db_now new hash new_hash st s row t hs hv hr ha hi hn nf nc =
    rw
      (nf begins, nf selects, hs, hv, hr, ha, hi, nf inserts_token, hn, nf replaces, nf touches, nc)
      refl

-- At the very moment at which the absolute lifetime ends, an undisturbed refresh with the current
-- token of a session that is not idle for too long still succeeds, while the session already meets
-- the conditions of the cleanup.
pub refresh_token-boundary :
    (d : Faults) (idle now db_now new hash new_hash : ℕ) (st s : Store) (row : TokenRow)
    (t : RefreshToken)
    → select_token hash st ≡ some (row, st)
    → row.session.revoked_at ≡ none
    → row.token.replaced_by ≡ none
    → row.session.absolute_expires_at ≡ now
    → now - row.session.last_activity_at ≤ idle
    → insert_token db_now new row.token.session_id new_hash st ≡ some (t, s)
    → ((q : Statement) → d.fails q ≡ false)
    → d.commit_reply ≡ committed
    → ((refresh_token d idle now db_now new hash new_hash st).0 ≡ ok (row, t))
      × (is_eligible idle now row.session ≡ true)
refresh_token-boundary d idle now db_now new hash new_hash st s row t hs hv hr ha hi hn nf nc = (
  refresh_token-accepts d idle now db_now new hash new_hash st s row t hs (rw hv refl) (rw hr refl)
      (ground arith) (ground arith) hn nf nc,
  ground arith,
)
