-- ===== src/Auth/Session/Replay.antt =====
-- internal/api/auth/session/repository.go: a refresh token that was rotated, and a session that has
-- ended, whatever calls come between.
use stash_it_backend.Base.{
  ℕ, ◌≡◌, Bool, false, List, [], ◌∷◌, ok, arith, ◌==◌, All, All-find, All-keep, find-pass,
}
use stash_it_backend.Auth.Session.{
  RefreshToken, Store, TokenRow, revoke, delete_sessions, touch_session, replace_token,
}
use stash_it_backend.Auth.Session.Repository.{
  refresh_token, revoke_session, revoke_session_for_user, delete_eligible, batch, is_chosen, Faults,
}
use stash_it_backend.Auth.Session.Outcomes.{
  Outcome, refused, revoked, rotated, refresh_token-Outcome,
}
use stash_it_backend.Auth.Session.Tables.{insert_token-Inserts, map-set_null}
use stash_it_backend.Auth.Session.Rotation.{
  Spent, IsSpent, rotation-Spent, cons-Spent, replace-Spent,
}
use stash_it_backend.Auth.Session.Operations.{
  Operation, creates, refreshes, ends, ends_for_user, cleans, perform, perform_all, IsConsistent,
  Creation, nothing, created, create_session-Creation, insert_session-Opens, select_token-token,
}
use stash_it_backend.Auth.Session.Consistency.{perform-IsConsistent}

-- The call does not issue a token of this hash.
abbrev pub Avoids : ℕ → Operation → Type 0
Avoids h (creates d db_now new new_token user m expires hash) = (hash == h) ≡ false
Avoids h (refreshes d idle now db_now new hash new_hash) = (new_hash == h) ≡ false
Avoids h (ends d db_now session user) = Unit
Avoids h (ends_for_user d db_now session user) = Unit
Avoids h (cleans d locked idle db_now limit) = Unit

Creation-Spent :
    (h db_now new new_token user : ℕ) {m : _} (expires hash : ℕ) (st s : Store)
    → (hash == h) ≡ false
    → Spent h st.tokens
    → Creation db_now new new_token user m expires hash st s
    → Spent h s.tokens
Creation-Spent h db_now new new_token user expires hash st s a v nothing = v
Creation-Spent h db_now new new_token user expires hash st s2 a v (created x t s1 s q q') =
    let o = insert_session-Opens db_now new user _ expires st s1 x q in
    let n = insert_token-Inserts db_now new_token x.id hash s1 s t q' in
    rw n.tokens (cons-Spent h new_token x.id hash s1 s t n a (rw o.tokens v))

Outcome-Spent :
    (h idle now db_now new hash new_hash : ℕ) (st : Store) (r : _)
    → (new_hash == h) ≡ false
    → Spent h st.tokens
    → Outcome idle now db_now new hash new_hash st r
    → Spent h r.1.tokens
unfolding touch_session replace_token revoke
Outcome-Spent h idle now db_now new hash new_hash st r a v (refused e) = v
Outcome-Spent h idle now db_now new hash new_hash st r a v (revoked row e _ _) = v
Outcome-Spent h idle now db_now new hash new_hash st r a v (rotated row t s _ hs _ _ _ hi _) =
    let n = insert_token-Inserts db_now new row.token.session_id new_hash st s t hi in
    replace-Spent h row.token.id t.id s.tokens
      (rw n.tokens (cons-Spent h new row.token.session_id new_hash st s t n a v))

delete_sessions-Spent :
    (h : ℕ) (gone : ℕ → Bool) (st : Store)
    → IsConsistent st
    → Spent h st.tokens
    → Spent h (delete_sessions gone st).tokens
unfolding delete_sessions
delete_sessions-Spent h gone st c v =
    rw (map-set_null gone st.tokens c.tokens) (All-keep (IsSpent h) _ st.tokens v)

pub perform-Spent :
    (h : ℕ) (o : Operation) (st : Store)
    → IsConsistent st
    → Avoids h o
    → Spent h st.tokens
    → Spent h (perform o st).tokens
unfolding perform revoke_session revoke_session_for_user delete_eligible revoke
perform-Spent h (creates d db_now new new_token user m expires hash) st c a v =
    Creation-Spent h _ _ _ _ _ _ st _ a v
      (create_session-Creation db_now new new_token user m expires hash st d)
perform-Spent h (refreshes d idle now db_now new hash new_hash) st c a v =
    Outcome-Spent h idle now db_now new hash new_hash st _ a v
      (refresh_token-Outcome d idle now db_now new hash new_hash st)
perform-Spent h (ends d db_now session user) st c a v = ground arith
perform-Spent h (ends_for_user d db_now session user) st c a v = ground arith
perform-Spent h (cleans d locked idle db_now limit) st c a v =
    grind (
      arith,
      delete_sessions-Spent h (is_chosen (batch locked idle db_now limit st.sessions)) st c v,
    )

pub perform_all-Spent :
    (h : ℕ) (os : List Operation) (st : Store)
    → IsConsistent st
    → All (Avoids h) os
    → Spent h st.tokens
    → Spent h (perform_all os st).tokens
unfolding perform_all
perform_all-Spent h [] st c a v = v
perform_all-Spent h (o ∷ os) st c a v =
    perform_all-Spent h os (perform o st) (perform-IsConsistent o st c) a.1
      (perform-Spent h o st c a.0 v)

-- A successful refresh spends the token that it was called with.
refresh_token-Spent :
    (idle now db_now new hash new_hash : ℕ) (st : Store) (r : _) (x : TokenRow × RefreshToken)
    → IsConsistent st
    → Outcome idle now db_now new hash new_hash st r
    → r.0 ≡ ok x
    → Spent hash r.1.tokens
unfolding touch_session replace_token
refresh_token-Spent idle now db_now new hash new_hash st r x c (refused e) h = cc
refresh_token-Spent idle now db_now new hash new_hash st r x c (revoked row e _ _) h = cc
refresh_token-Spent idle now db_now new hash new_hash st r x c (rotated row t s _ hs _ _ _ hi _) h =
    let n = insert_token-Inserts db_now new row.token.session_id new_hash st s t hi in
    rw n.tokens (
      rotation-Spent new new_hash hash st s row.token t c.tokens n
        (select_token-token hash st row hs).0)

Spent-refused :
    (idle now db_now new hash new_hash : ℕ) (st : Store) (r : _) (x : TokenRow × RefreshToken)
    → Spent hash st.tokens
    → Outcome idle now db_now new hash new_hash st r
    → ¬ (r.0 ≡ ok x)
Spent-refused idle now db_now new hash new_hash st r x v (refused e) h = cc
Spent-refused idle now db_now new hash new_hash st r x v (revoked row e _ _) h = cc
Spent-refused idle now db_now new hash new_hash st r x v (rotated row t s _ hs _ hr _ hi _) h =
    let q = (select_token-token hash st row hs).0 in
    ground (arith, All-find (IsSpent hash) _ st.tokens row.token v q, find-pass _ _ _ q)

-- Once a refresh has handed out the successor of a token, no later refresh with that token
-- succeeds, whatever calls come between, also ones that fail or whose commit was not answered,
-- and a deletion of sessions, as long as the hash of the token is not issued again.
pub replay-refused :
    (d d' : Faults) (idle now db_now new hash new_hash : ℕ) (st : Store)
    (x : TokenRow × RefreshToken) (os : List Operation) (idle' now' db_now' new' new_hash' : ℕ)
    (y : TokenRow × RefreshToken)
    → IsConsistent st
    → (refresh_token d idle now db_now new hash new_hash st).0 ≡ ok x
    → All (Avoids hash) os
    → ¬ (
        (refresh_token d' idle' now' db_now' new' hash new_hash'
          (perform_all os (refresh_token d idle now db_now new hash new_hash st).1)).0
        ≡ ok y)
unfolding perform refresh_token
replay-refused d d' idle now db_now new hash new_hash st x os idle' now' db_now' new' new_hash' y c
      h a =
    Spent-refused idle' now' db_now' new' hash new_hash' _ _ y
      (perform_all-Spent hash os _
        (perform-IsConsistent (refreshes d idle now db_now new hash new_hash) st c) a
        (refresh_token-Spent idle now db_now new hash new_hash st _ x c
          (refresh_token-Outcome d idle now db_now new hash new_hash st) h))
      (refresh_token-Outcome d' idle' now' db_now' new' hash new_hash' _)
