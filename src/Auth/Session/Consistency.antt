-- ===== src/Auth/Session/Consistency.antt =====
-- internal/api/auth/session/repository.go: every operation keeps the tables consistent.
use stash_it_backend.Base.{
  ℕ, refl, Bool, List, [], ◌∷◌, arith, Unique-update, Unique-keep, find-none,
}
use stash_it_backend.Auth.Session.{Store, revoke, delete_sessions, touch_session, replace_token}
use stash_it_backend.Auth.Session.Repository.{
  revoke_session, revoke_session_for_user, delete_eligible, batch, is_chosen,
}
use stash_it_backend.Auth.Session.Outcomes.{
  Outcome, refused, revoked, rotated, refresh_token-Outcome,
}
use stash_it_backend.Auth.Session.Tables.{
  insert_token-Inserts, cons-IsSound, keep-IsSound, map-set_null,
}
use stash_it_backend.Auth.Session.Rotation.{rotation-IsSound}
use stash_it_backend.Auth.Session.Operations.{
  Operation, creates, refreshes, ends, ends_for_user, cleans, perform, perform_all, IsConsistent,
  Creation, nothing, created, create_session-Creation, insert_session-Opens, select_token-token,
}

pub revoke-IsConsistent :
    (now i user : ℕ) (st : Store) → IsConsistent st → IsConsistent (revoke now i user st)
unfolding revoke
revoke-IsConsistent now i user st v = record {
  tokens = v.tokens;
  sessions = Unique-update _ _ _ st.sessions (λ _. refl) v.sessions;
}

pub delete_sessions-IsConsistent :
    (gone : ℕ → Bool) (st : Store) → IsConsistent st → IsConsistent (delete_sessions gone st)
unfolding delete_sessions
delete_sessions-IsConsistent gone st v = record {
  tokens = rw (map-set_null gone st.tokens v.tokens) (keep-IsSound gone st.tokens v.tokens);
  sessions = Unique-keep _ _ st.sessions v.sessions;
}

Creation-IsConsistent :
    (db_now new new_token user : ℕ) {m : _} (expires hash : ℕ) (st s : Store)
    → IsConsistent st
    → Creation db_now new new_token user m expires hash st s
    → IsConsistent s
Creation-IsConsistent db_now new new_token user expires hash st s v nothing = v
Creation-IsConsistent db_now new new_token user expires hash st s2 v (created x t s1 s q q') =
    let o = insert_session-Opens db_now new user _ expires st s1 x q in
    let n = insert_token-Inserts db_now new_token x.id hash s1 s t q' in
    record {
      tokens = rw n.tokens (cons-IsSound new_token x.id hash s1 s t (rw o.tokens v.tokens) n);
      sessions = rw (n.sessions, o.sessions) ((rw o.id (find-none _ _ o.fresh)), v.sessions);
    }

Outcome-IsConsistent :
    (idle now db_now new hash new_hash : ℕ) (st : Store) (r : _)
    → IsConsistent st
    → Outcome idle now db_now new hash new_hash st r
    → IsConsistent r.1
unfolding touch_session replace_token
Outcome-IsConsistent idle now db_now new hash new_hash st r v (refused e) = v
Outcome-IsConsistent idle now db_now new hash new_hash st r v (revoked row e _ _) =
    revoke-IsConsistent db_now row.token.session_id row.session.user_id st v
Outcome-IsConsistent idle now db_now new hash new_hash st r v (rotated row t s _ hs _ _ _ hi _) =
    let n = insert_token-Inserts db_now new row.token.session_id new_hash st s t hi in
    record {
      tokens = rw n.tokens (
          rotation-IsSound new new_hash hash st s row.token t v.tokens n
            (select_token-token hash st row hs).0);
      sessions = Unique-update _ _ _ s.sessions (λ _. refl) (rw n.sessions v.sessions);
    }

-- Whatever the call and whatever goes wrong in it, the keys stay unique and the successor of a
-- token stays a token of the same session, or the token has none.
pub perform-IsConsistent :
    (o : Operation) (st : Store) → IsConsistent st → IsConsistent (perform o st)
unfolding perform revoke_session revoke_session_for_user delete_eligible
perform-IsConsistent (creates d db_now new new_token user m expires hash) st v =
    Creation-IsConsistent _ _ _ _ _ _ st _ v
      (create_session-Creation db_now new new_token user m expires hash st d)
perform-IsConsistent (refreshes d idle now db_now new hash new_hash) st v =
    Outcome-IsConsistent idle now db_now new hash new_hash st _ v
      (refresh_token-Outcome d idle now db_now new hash new_hash st)
perform-IsConsistent (ends d db_now session user) st v =
    grind (arith, revoke-IsConsistent db_now session user st v)
perform-IsConsistent (ends_for_user d db_now session user) st v =
    grind (arith, revoke-IsConsistent db_now session user st v)
perform-IsConsistent (cleans d locked idle db_now limit) st v = grind (
  arith,
  delete_sessions-IsConsistent (is_chosen (batch locked idle db_now limit st.sessions)) st v,
)

pub perform_all-IsConsistent :
    (os : List Operation) (st : Store) → IsConsistent st → IsConsistent (perform_all os st)
unfolding perform_all
perform_all-IsConsistent [] st v = v
perform_all-IsConsistent (o ∷ os) st v =
    perform_all-IsConsistent os (perform o st) (perform-IsConsistent o st v)
