-- ===== src/Auth/Session/Operations.antt =====
-- internal/api/auth/session/repository.go: any sequence of the calls that change the two tables,
-- and what every such sequence keeps.
use stash_it_backend.Base.{ℕ, ◌≡◌, Bool, false, List, [], ◌∷◌, some, arith, is_some, Unique}
use stash_it_backend.Database.Rules.{execute-bind, commit-bind, transaction-rule}
use stash_it_backend.Auth.Session.{
  Metadata, Session, RefreshToken, Store, TokenRow, token_hashed, session_with, select_token,
  insert_session, insert_token,
}
use stash_it_backend.Auth.Session.Repository.{
  Faults, create_session, refresh_token, revoke_session, revoke_session_for_user, delete_eligible,
}
use stash_it_backend.Auth.Session.Tables.{IsSound}

pub data Operation : Type 0 where
  creates :
      (d : Faults) (db_now new new_token user : ℕ) (m : Metadata) (expires hash : ℕ) → Operation
  refreshes : (d : Faults) (idle now db_now new hash new_hash : ℕ) → Operation
  ends : (d : Faults) (db_now session user : ℕ) → Operation
  ends_for_user : (d : Faults) (db_now session user : ℕ) → Operation
  cleans : (d : Faults) (locked : ℕ → Bool) (idle db_now limit : ℕ) → Operation

unfoldable pub perform : Operation → Store → Store
perform (creates d db_now new new_token user m expires hash) st =
    (create_session d db_now new new_token user m expires hash st).1
perform (refreshes d idle now db_now new hash new_hash) st =
    (refresh_token d idle now db_now new hash new_hash st).1
perform (ends d db_now session user) st = (revoke_session d db_now session user st).1
perform (ends_for_user d db_now session user) st =
    (revoke_session_for_user d db_now session user st).1
perform (cleans d locked idle db_now limit) st = (delete_eligible d locked idle db_now limit st).1

unfoldable pub perform_all : List Operation → Store → Store
perform_all [] st = st
perform_all (o ∷ os) st = perform_all os (perform o st)

-- The keys are unique, and a token's successor is of its session.
pub record IsConsistent (st : Store) : Type 0 where
  pub tokens : IsSound st.tokens
  pub sessions : Unique (λ s. s.id) st.sessions

-- What a sign-in may leave.
module _ (db_now new new_token user : ℕ) (m : Metadata) (expires hash : ℕ) (st : Store) where
  pub data Creation : Store → Type 0 where
    nothing : Creation st
    created :
        (x : Session) (t : RefreshToken) (s s' : Store)
        → insert_session db_now new user m expires st ≡ some (x, s)
        → insert_token db_now new_token x.id hash s ≡ some (t, s')
        → Creation s'

  pub create_session-Creation :
      (d : Faults) → Creation (create_session d db_now new new_token user m expires hash st).1
  unfolding create_session
  create_session-Creation d =
      transaction-rule (λ x. Creation x.1) _ _ _ _ (λ _. nothing)
        (λ _.
          execute-bind (λ x. Creation x.1.durable) _ _ _ _ _ _ (λ _. nothing) (λ _ _. nothing)
            (λ x s _ q.
              execute-bind (λ x. Creation x.1.durable) _ _ _ _ _ _ (λ _. nothing) (λ _ _. nothing)
                (λ t s' _ q'.
                  commit-bind (λ x. Creation x.1.durable) _ _ _ _ nothing (created x t s s' q q')
                    (created x t s s' q q'))))

pub record Opens (new : ℕ) (st s : Store) (x : Session) : Type 0 where
  pub fresh : is_some (session_with new st.sessions) ≡ false
  pub id : x.id ≡ new
  pub tokens : s.tokens ≡ st.tokens
  pub sessions : s.sessions ≡ x ∷ st.sessions

pub insert_session-Opens :
    (db_now new user : ℕ) (m : Metadata) (expires : ℕ) (st s : Store) (x : Session)
    → insert_session db_now new user m expires st ≡ some (x, s)
    → Opens new st s x
unfolding insert_session
insert_session-Opens db_now new user m expires st s x h = record {
  fresh = ground arith;
  id = ground arith;
  tokens = ground arith;
  sessions = ground arith;
}

pub select_token-token :
    (hash : ℕ) (st : Store) (row : TokenRow)
    → select_token hash st ≡ some (row, st)
    → (token_hashed hash st.tokens ≡ some row.token)
      × (session_with row.token.session_id st.sessions ≡ some row.session)
unfolding select_token
select_token-token hash st row h = (ground arith, ground arith)
