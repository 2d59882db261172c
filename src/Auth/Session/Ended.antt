-- ===== src/Auth/Session/Ended.antt =====
-- internal/api/auth/session/repository.go: a session that was revoked stays revoked.
use stash_it_backend.Base.{
  ℕ, ◌-◌, ltb, if◌then◌else◌, ◌≡◌, refl, sym, ap, ◌∙◌, Bool, true, false, ◌||◌, Bool-cases, inl,
  inr, List, [], ◌∷◌, some, Result, ok, arith, is_some, ◌==◌, All, All-find, All-keep, All-update,
  All-map, find-pass, Unique-found,
}
use stash_it_backend.Database.{committed, execute, commit, transaction}
use stash_it_backend.Auth.Session.{
  Session, RefreshToken, Store, TokenRow, select_token, revoke, delete_sessions, touch_session,
  replace_token,
}
use stash_it_backend.Auth.Session.Repository.{
  Statement, begins, selects, revokes, is_stale, decide, revoke_and_refuse, refresh_token,
  revoke_session, revoke_session_for_user, delete_eligible, batch, is_chosen, Faults,
}
use stash_it_backend.Auth.Session.Outcomes.{
  Outcome, refused, revoked, rotated, refresh_token-Outcome,
}
use stash_it_backend.Auth.Session.Tables.{insert_token-Inserts}
use stash_it_backend.Auth.Session.Operations.{
  Operation, creates, refreshes, ends, ends_for_user, cleans, perform, perform_all, IsConsistent,
  Creation, nothing, created, create_session-Creation, insert_session-Opens, select_token-token,
}

-- A session with this id has been revoked.
abbrev pub IsEnded : ℕ → Session → Type 0
IsEnded i s = (s.id == i) ≡ true → is_some s.revoked_at ≡ true

abbrev pub Ended : ℕ → Store → Type 0
Ended i st = All (IsEnded i) st.sessions

-- The call does not give this id to a session.
abbrev pub Skips : ℕ → Operation → Type 0
Skips i (creates d db_now new new_token user m expires hash) = (new == i) ≡ false
Skips i (refreshes d idle now db_now new hash new_hash) = Unit
Skips i (ends d db_now session user) = Unit
Skips i (ends_for_user d db_now session user) = Unit
Skips i (cleans d locked idle db_now limit) = Unit

revoke-Ended :
    (i now session user : ℕ) (st : Store) → Ended i st → Ended i (revoke now session user st)
unfolding revoke
revoke-Ended i now session user st v =
    All-update _ _ _ _ st.sessions (λ _ _ _ _. refl) (λ _ _ q. q) v

touch-Ended : (i now j : ℕ) (st : Store) → Ended i st → Ended i (touch_session now j st)
unfolding touch_session
touch-Ended i now j st v = All-update _ _ _ _ st.sessions (λ _ _ q. q) (λ _ _ q. q) v

delete_sessions-Ended :
    (i : ℕ) (gone : ℕ → Bool) (st : Store) → Ended i st → Ended i (delete_sessions gone st)
unfolding delete_sessions
delete_sessions-Ended i gone st v = All-keep (IsEnded i) _ st.sessions v

Creation-Ended :
    (i db_now new new_token user : ℕ) {m : _} (expires hash : ℕ) (st s : Store)
    → (new == i) ≡ false
    → Ended i st
    → Creation db_now new new_token user m expires hash st s
    → Ended i s
Creation-Ended i db_now new new_token user expires hash st s a v nothing = v
Creation-Ended i db_now new new_token user expires hash st s2 a v (created x t s1 s q q') =
    let o = insert_session-Opens db_now new user _ expires st s1 x q in
    let n = insert_token-Inserts db_now new_token x.id hash s1 s t q' in
    rw (n.sessions, o.sessions) ((λ e. ground (arith, o.id)), v)

Outcome-Ended :
    (i idle now db_now new hash new_hash : ℕ) (st : Store) (r : _)
    → Ended i st
    → Outcome idle now db_now new hash new_hash st r
    → Ended i r.1
unfolding replace_token
Outcome-Ended i idle now db_now new hash new_hash st r v (refused e) = v
Outcome-Ended i idle now db_now new hash new_hash st r v (revoked row e _ _) =
    revoke-Ended i db_now row.token.session_id row.session.user_id st v
Outcome-Ended i idle now db_now new hash new_hash st r v (rotated row t s _ hs _ _ _ hi _) =
    let n = insert_token-Inserts db_now new row.token.session_id new_hash st s t hi in
    touch-Ended i db_now row.token.session_id (replace_token row.token.id t.id s) (rw n.sessions v)

pub perform-Ended :
    (i : ℕ) (o : Operation) (st : Store) → Skips i o → Ended i st → Ended i (perform o st)
unfolding perform revoke_session revoke_session_for_user delete_eligible
perform-Ended i (creates d db_now new new_token user m expires hash) st a v =
    Creation-Ended i _ _ _ _ _ _ st _ a v
      (create_session-Creation db_now new new_token user m expires hash st d)
perform-Ended i (refreshes d idle now db_now new hash new_hash) st a v =
    Outcome-Ended i idle now db_now new hash new_hash st _ v
      (refresh_token-Outcome d idle now db_now new hash new_hash st)
perform-Ended i (ends d db_now session user) st a v =
    grind (arith, revoke-Ended i db_now session user st v)
perform-Ended i (ends_for_user d db_now session user) st a v =
    grind (arith, revoke-Ended i db_now session user st v)
perform-Ended i (cleans d locked idle db_now limit) st a v =
    grind
      (arith, delete_sessions-Ended i (is_chosen (batch locked idle db_now limit st.sessions)) st v)

pub perform_all-Ended :
    (i : ℕ) (os : List Operation) (st : Store)
    → All (Skips i) os
    → Ended i st
    → Ended i (perform_all os st)
unfolding perform_all
perform_all-Ended i [] st a v = v
perform_all-Ended i (o ∷ os) st a v =
    perform_all-Ended i os (perform o st) a.1 (perform-Ended i o st a.0 v)

ok-row :
    {E : Type 0} (row row' : TokenRow) (t t' : RefreshToken)
    → ◌≡◌ {A = Result E (TokenRow × RefreshToken)} (ok (row, t)) (ok (row', t'))
    → row ≡ row'
ok-row row row' t t' h = cc

-- A refresh that succeeds is for a session that has not ended.
Ended-refused :
    (i idle now db_now new hash new_hash : ℕ) (st : Store) (r : _) (row : TokenRow)
    (t : RefreshToken)
    → Ended i st
    → Outcome idle now db_now new hash new_hash st r
    → r.0 ≡ ok (row, t)
    → (row.session.id == i) ≡ false
Ended-refused i idle now db_now new hash new_hash st r row t v (refused e) h = cc
Ended-refused i idle now db_now new hash new_hash st r row t v (revoked row' e _ _) h = cc
Ended-refused i idle now db_now new hash new_hash st r row t v
      (rotated row' t' s _ hs hv _ _ hi (inr q)) h =
    cc
Ended-refused i idle now db_now new hash new_hash st r row t v
      (rotated row' t' s _ hs hv _ _ hi (inl q)) h =
    ground (
      arith,
      All-find (IsEnded i) _ st.sessions row'.session v (select_token-token hash st row' hs).1,
      ok-row row' row t' t (sym q ∙ h),
    )

is_stale-idle :
    (idle now : ℕ) (s : Session)
    → is_stale idle now s ≡ true
    → ltb s.absolute_expires_at now ≡ false
    → ltb idle (now - s.last_activity_at) ≡ true
is_stale-idle idle now s h e = ground arith

-- The revocation of the session that a token belongs to.
revoke-ends :
    (now : ℕ) (st : Store) (hash : ℕ) (row : TokenRow)
    → IsConsistent st
    → select_token hash st ≡ some (row, st)
    → Ended row.session.id (revoke now row.token.session_id row.session.user_id st)
unfolding revoke
revoke-ends now st hash row c h =
    All-update _ _ _ _ st.sessions (λ _ _ _ _. refl)
      (λ s e q i. ground (arith, q i, find-pass _ _ _ (select_token-token hash st row h).1))
      (Unique-found (λ s. s.id) _ st.sessions row.session c.sessions
        (select_token-token hash st row h).1)

revoked-Ended :
    (hash : ℕ) (st : Store) (row : TokenRow)
    → IsConsistent st
    → select_token hash st ≡ some (row, st)
    → is_some row.session.revoked_at ≡ true
    → Ended row.session.id st
revoked-Ended hash st row c h r =
    All-map st.sessions (λ s q e. ground (arith, ap (λ z. z.revoked_at) (q e)))
      (Unique-found (λ s. s.id) _ st.sessions row.session c.sessions
        (select_token-token hash st row h).1)

-- The store that an undisturbed refresh leaves, on a row that it must not accept.
refresh_token-store :
    (d : Faults) (idle now db_now new hash new_hash : ℕ) (st : Store) (row : TokenRow)
    → select_token hash st ≡ some (row, st)
    → (is_some row.token.replaced_by || is_stale idle now row.session) ≡ true
    → ((q : Statement) → d.fails q ≡ false)
    → d.commit_reply ≡ committed
    → (refresh_token d idle now db_now new hash new_hash st).1 ≡ (
        if is_some row.session.revoked_at
        then st
        else revoke db_now row.token.session_id row.session.user_id st)
unfolding refresh_token decide revoke_and_refuse execute commit transaction
refresh_token-store d idle now db_now new hash new_hash st row hs hr nf nc =
    rw (nf begins, nf selects, hs, nf revokes, nc)
      (elim (Bool-cases (is_some row.session.revoked_at)) [
        | inl e ↦ rw e refl
        | inr e ↦ elim (Bool-cases (is_some row.token.replaced_by)) [
          | inl e' ↦ rw (e, e') refl
          | inr e' ↦ elim (Bool-cases (ltb row.session.absolute_expires_at now)) [
            | inl e'' ↦ rw (e, e', e'') refl
            | inr e'' ↦ rw (e, e', e'', is_stale-idle idle now row.session (rw e' at hr) e'') refl
          ]
        ]
      ])

-- After an undisturbed refresh with a token that was rotated before, or for a session that is
-- past its absolute or its idle lifetime, no refresh for that session succeeds any more, with
-- whichever token and whatever calls come between, as long as its id is not given out again.
pub reuse-ends :
    (d d' : Faults) (idle now db_now new hash new_hash : ℕ) (st : Store) (row : TokenRow)
    (os : List Operation) (idle' now' db_now' new' hash' new_hash' : ℕ) (row' : TokenRow)
    (t : RefreshToken)
    → IsConsistent st
    → select_token hash st ≡ some (row, st)
    → (is_some row.token.replaced_by || is_stale idle now row.session) ≡ true
    → ((q : Statement) → d.fails q ≡ false)
    → d.commit_reply ≡ committed
    → All (Skips row.session.id) os
    → row'.session.id ≡ row.session.id
    → ¬ (
        (refresh_token d' idle' now' db_now' new' hash' new_hash'
          (perform_all os (refresh_token d idle now db_now new hash new_hash st).1)).0
        ≡ ok (row', t))
reuse-ends d d' idle now db_now new hash new_hash st row os idle' now' db_now' new' hash' new_hash'
      row' t c hs hr nf nc a same h =
    let after : Ended row.session.id (refresh_token d idle now db_now new hash new_hash st).1 =
      rw (refresh_token-store d idle now db_now new hash new_hash st row hs hr nf nc)
        (elim (Bool-cases (is_some row.session.revoked_at)) [
          | inl e ↦ rw e (revoked-Ended hash st row c hs e)
          | inr e ↦ rw e (revoke-ends db_now st hash row c hs)
        ]) in
    ground (
      arith,
      Ended-refused row.session.id idle' now' db_now' new' hash' new_hash' _ _ row' t
          (perform_all-Ended row.session.id os _ a after)
          (refresh_token-Outcome d' idle' now' db_now' new' hash' new_hash' _) h,
    )
