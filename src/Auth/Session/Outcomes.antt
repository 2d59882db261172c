-- ===== src/Auth/Session/Outcomes.antt =====
-- internal/api/auth/session/repository.go: what a refresh may end with.
use stash_it_backend.Base.{
  is_some, ℕ, ◌-◌, ◌≡◌, refl, sym, ap, ◌∙◌, subst, ◌⊎◌, inl, inr, true, false, ◌||◌, Option, none,
  some, ltb, Result, ok, err, arith,
}
use stash_it_backend.Database.{Connection}
use stash_it_backend.Database.Rules.{
  execute-bind, write-bind, commit-bind, if-rule, transaction-rule,
}
use stash_it_backend.Auth.Session.{
  RefreshToken, Store, TokenRow, select_token, insert_token, replace_token, touch_session, revoke,
}
use stash_it_backend.Auth.Session.Repository.{
  Code, SessionError, internal, Faults, is_stale, refresh_token, revoke_and_refuse, rotate, decide,
}

is_some-false {ℓ} : {A : Type ℓ} (o : Option A) → is_some o ≡ false → o ≡ none
is_some-false none h = refl
is_some-false (some a) h = cc

select_token-store :
    (hash : ℕ) (st : Store) (row : TokenRow) (s : Store)
    → select_token hash st ≡ some (row, s)
    → s ≡ st
unfolding select_token
select_token-store hash st row s h = ground arith

module _ (idle now db_now new hash new_hash : ℕ) (st : Store) where
  -- The answer of a refresh, with the store it leaves.
  pub data Outcome : Result SessionError (TokenRow × RefreshToken) × Store → Type 0 where
    refused : (e : SessionError) → Outcome (err e, st)
    revoked :
        (row : TokenRow) (e : SessionError)
        → select_token hash st ≡ some (row, st)
        → (is_some row.token.replaced_by || is_stale idle now row.session) ≡ true
        → Outcome (err e, revoke db_now row.token.session_id row.session.user_id st)
    -- Either the caller got the successor, or the reply of the commit was lost.
    rotated :
        (row : TokenRow) (t : RefreshToken) (s : Store)
        (r : Result SessionError (TokenRow × RefreshToken))
        → select_token hash st ≡ some (row, st)
        → row.session.revoked_at ≡ none
        → row.token.replaced_by ≡ none
        → is_stale idle now row.session ≡ false
        → insert_token db_now new row.token.session_id new_hash st ≡ some (t, s)
        → (r ≡ ok (row, t)) ⊎ (r ≡ err internal)
        → Outcome (r, touch_session db_now row.token.session_id (replace_token row.token.id t.id s))

module _ (d : Faults) (idle now db_now new hash new_hash : ℕ) (st : Store) where
  abbrev Ends : Result SessionError (TokenRow × RefreshToken) × Connection Store → Type 0
  Ends x = Outcome idle now db_now new hash new_hash st (x.0, x.1.durable)

  revoke_and_refuse-Outcome :
      (row : TokenRow) (code : Code)
      → select_token hash st ≡ some (row, st)
      → (is_some row.token.replaced_by || is_stale idle now row.session) ≡ true
      → Ends (revoke_and_refuse d db_now row code (record { durable = st; view = st }))
  unfolding revoke_and_refuse
  revoke_and_refuse-Outcome row code hs hr =
      write-bind Ends _ _ _ _ _ _ (refused _)
        (commit-bind Ends _ _ _ _ (refused _) (revoked row _ hs hr) (revoked row _ hs hr))

  rotate-Outcome :
      (row : TokenRow)
      → select_token hash st ≡ some (row, st)
      → row.session.revoked_at ≡ none
      → row.token.replaced_by ≡ none
      → is_stale idle now row.session ≡ false
      → Ends (rotate d db_now new new_hash row (record { durable = st; view = st }))
  unfolding rotate
  rotate-Outcome row hs hv hr ha =
      execute-bind Ends _ _ _ _ _ _ (λ _. refused _) (λ _ _. refused _)
        (λ t s _ q. write-bind Ends _ _ _ _ _ _ (refused _) (
          write-bind Ends _ _ _ _ _ _ (refused _) (
            commit-bind Ends _ _ _ _ (refused _) (rotated row t s _ hs hv hr ha q (inr refl))
              (rotated row t s _ hs hv hr ha q (inl refl)))))

  decide-Outcome :
      (row : TokenRow)
      → select_token hash st ≡ some (row, st)
      → Ends (decide d idle now db_now new new_hash row (record { durable = st; view = st }))
  unfolding decide
  decide-Outcome row hs =
      if-rule Ends (is_some row.session.revoked_at) _ _ _ (λ _. refused _)
        (λ hv.
          if-rule Ends (is_some row.token.replaced_by) _ _ _
            (λ hr. revoke_and_refuse-Outcome row _ hs (ground arith))
            (λ hr.
              if-rule Ends (ltb row.session.absolute_expires_at now) _ _ _
                (λ ha. revoke_and_refuse-Outcome row _ hs (ground arith))
                (λ ha.
                  if-rule Ends (ltb idle (now - row.session.last_activity_at)) _ _ _
                    (λ hi. revoke_and_refuse-Outcome row _ hs (ground arith))
                    (λ hi.
                      rotate-Outcome row hs (is_some-false _ hv) (is_some-false _ hr)
                        (ground arith)))))

  -- A refresh ends in one of three ways, whatever goes wrong: nothing changed; its token was
  -- rotated before or its session is stale, and the session is revoked; or its token was current
  -- and its session usable, and the token has the new one as its successor.
  pub refresh_token-Outcome :
      Outcome idle now db_now new hash new_hash st
        (refresh_token d idle now db_now new hash new_hash st)
  unfolding refresh_token
  refresh_token-Outcome =
      transaction-rule (Outcome idle now db_now new hash new_hash st) _ _ _ _ (λ _. refused _)
        (λ _.
          execute-bind Ends _ _ _ _ _ _ (λ _. refused _) (λ _ _. refused _)
            (λ row s _ q.
              subst
                (λ x.
                  Ends
                    (decide d idle now db_now new new_hash row (record { durable = st; view = x })))
                (sym (select_token-store hash st row s q))
                (decide-Outcome row
                  (q ∙ ap (λ x. some (row, x)) (select_token-store hash st row s q)))))
