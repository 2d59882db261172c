-- ===== src/Auth/Session/Ownership.antt =====
-- internal/api/auth/session/repository.go: whose sessions a revocation reaches.
use stash_it_backend.Base.{
  ℕ, ◌≡◌, refl, Bool, true, false, not, Bool-cases, inl, inr, List, [], ◌∷◌, some, err, ◌==◌, keep,
  find, update_where, is_some, arith,
}
use stash_it_backend.Auth.Session.{Session, Store, revoke, is_revocable}
use stash_it_backend.Auth.Session.Repository.{
  Faults, not_found, revoke_session, revoke_session_for_user,
}

-- The sessions of everybody else.
abbrev pub others : ℕ → List Session → List Session
others user = keep (λ s. not (s.user_id == user))

keep-update :
    (p q : Session → Bool) (f : Session → Session) (ss : List Session)
    → ((s : Session) → p s ≡ true → q s ≡ false)
    → ((s : Session) → q (f s) ≡ q s)
    → keep q (update_where p f ss) ≡ keep q ss
unfolding keep update_where
keep-update p q f [] h g = refl
keep-update p q f (x ∷ ss) h g = elim (Bool-cases (p x)) [
  | inl e ↦ rw (e, g x, h x e) (keep-update p q f ss h g)
  | inr e ↦ rw (e, keep-update p q f ss h g) refl
]

revoke-others :
    (now i user : ℕ) (st : Store)
    → others user (revoke now i user st).sessions ≡ others user st.sessions
unfolding revoke
revoke-others now i user st =
    keep-update (is_revocable i user) _ _ st.sessions (λ s h. ground arith) (λ s. refl)

no_match :
    (p : Session → Bool) (f : Session → Session) (ss : List Session)
    → is_some (find p ss) ≡ false
    → update_where p f ss ≡ ss
unfolding find update_where
no_match p f [] h = refl
no_match p f (x ∷ ss) h = ground (arith, no_match p f ss)

-- Logging out and revoking a session by its id leave the sessions of every other user and all
-- refresh tokens as they are, whichever session is named and whatever fails.
pub revoke_session-others :
    (d : Faults) (now i user : ℕ) (st : Store)
    → (others user (revoke_session d now i user st).1.sessions ≡ others user st.sessions)
      × (others user (revoke_session_for_user d now i user st).1.sessions ≡ others user st.sessions)
      × ((revoke_session d now i user st).1.tokens ≡ st.tokens)
      × ((revoke_session_for_user d now i user st).1.tokens ≡ st.tokens)
unfolding revoke_session revoke_session_for_user revoke
revoke_session-others d now i user st = (
  ground (arith, revoke-others now i user st),
  ground (arith, revoke-others now i user st),
  ground arith,
  ground arith,
)

-- Both ways to revoke a session do the same to the tables. They differ in the answer: only the
-- second tells, by an error, that no live session of the user has the id.
pub revoke_session_for_user-same :
    (d : Faults) (now i user : ℕ) (st : Store)
    → ((revoke_session_for_user d now i user st).1.sessions
        ≡ (revoke_session d now i user st).1.sessions)
      × ((revoke_session_for_user d now i user st).0 ≡ err not_found
          → is_some (find (is_revocable i user) st.sessions) ≡ false)
unfolding revoke_session revoke_session_for_user revoke
revoke_session_for_user-same d now i user st = (
  ground
      (arith, no_match (is_revocable i user) (λ s. record s { revoked_at = some now }) st.sessions),
  λ h. ground arith,
)
