-- ===== src/Auth/Session.antt =====
-- internal/api/auth/session: the tables `sessions` and `refresh_tokens`
-- (migrations/000013_create_auth_sessions_and_refresh_tokens.up.sql) and the statements of
-- queries.sql on them. Moments and durations are numbers of nanoseconds.
pub mod Repository
pub mod Outcomes
pub mod Tables
pub mod Rotation
pub mod Operations
pub mod Replay
pub mod Ended
pub mod Service
pub mod Paging
pub mod Cleanup
pub mod Batches
pub mod Boundary
pub mod Ownership
pub mod Checks
pub mod Consistency
use stash_it_backend.Base.{
  ℕ, ◌+◌, ◌≡◌, Bool, true, false, not, ◌&&◌, ◌||◌, List, [], ◌∷◌, map, Option, none, some, ltb, leb,
  ◌==◌, if◌then◌else◌, keep, find, update_where, is_some,
}
use stash_it_backend.Base.Text.{Text}

pub record Metadata : Type 0 where
  pub platform : Text
  pub installation_id : Option ℕ
  pub device_name : Option Text
  pub user_agent : Option Text

pub record Session : Type 0 where
  pub id : ℕ
  pub user_id : ℕ
  pub metadata : Metadata
  pub created_at : ℕ
  pub last_activity_at : ℕ
  pub absolute_expires_at : ℕ
  pub revoked_at : Option ℕ

pub record RefreshToken : Type 0 where
  pub id : ℕ
  pub session_id : ℕ
  pub token_hash : ℕ
  pub issued_at : ℕ
  pub replaced_by : Option ℕ

pub record Store : Type 0 where
  pub sessions : List Session
  pub tokens : List RefreshToken

abbrev pub token_with : ℕ → List RefreshToken → Option RefreshToken
token_with i = find (λ t. t.id == i)

abbrev pub token_hashed : ℕ → List RefreshToken → Option RefreshToken
token_hashed h = find (λ t. t.token_hash == h)

abbrev pub session_with : ℕ → List Session → Option Session
session_with i = find (λ s. s.id == i)

-- `GetRefreshTokenWithSessionForUpdate`: a row of the join.
pub record TokenRow : Type 0 where
  pub token : RefreshToken
  pub session : Session

unfoldable pub select_token : ℕ → Store → Option (TokenRow × Store)
select_token h st = elim (token_hashed h st.tokens) [
  | none ↦ none
  | some t ↦ elim (session_with t.session_id st.sessions) [
    | none ↦ none
    | some s ↦ some (record { token = t; session = s }, st)
  ]
]

-- `CreateSession`: the primary key refuses an id that is in use.
unfoldable pub insert_session : ℕ → ℕ → ℕ → Metadata → ℕ → Store → Option (Session × Store)
insert_session now new user metadata expires st =
    let s : Session = record {
      id = new;
      user_id = user;
      metadata = metadata;
      created_at = now;
      last_activity_at = now;
      absolute_expires_at = expires;
      revoked_at = none;
    } in
    if is_some (session_with new st.sessions)
    then none
    else some (s, record st { sessions = s ∷ st.sessions })

-- `CreateRefreshToken`: the primary key, the unique index on the hash and the reference to the
-- session refuse what they must.
unfoldable pub insert_token : ℕ → ℕ → ℕ → ℕ → Store → Option (RefreshToken × Store)
insert_token now new session hash st =
    let t : RefreshToken = record {
      id = new;
      session_id = session;
      token_hash = hash;
      issued_at = now;
      replaced_by = none;
    } in
    if is_some (token_with new st.tokens)
      || is_some (token_hashed hash st.tokens)
      || not (is_some (session_with session st.sessions))
    then none
    else some (t, record st { tokens = t ∷ st.tokens })

-- `ReplaceRefreshToken`.
unfoldable pub replace_token : ℕ → ℕ → Store → Store
replace_token i new st = record st {
  tokens = update_where (λ t. t.id == i) (λ t. record t { replaced_by = some new }) st.tokens;
}

-- `UpdateSessionActivity`.
unfoldable pub touch_session : ℕ → ℕ → Store → Store
touch_session now i st = record st {
  sessions = update_where (λ s. s.id == i) (λ s. record s { last_activity_at = now }) st.sessions;
}

abbrev pub is_revocable : ℕ → ℕ → Session → Bool
is_revocable i user s = (s.id == i) && ((s.user_id == user) && not (is_some s.revoked_at))

-- `RevokeSession`, and the write of `RevokeSessionForUser`.
unfoldable pub revoke : ℕ → ℕ → ℕ → Store → Store
revoke now i user st = record st {
  sessions =
      update_where (is_revocable i user) (λ s. record s { revoked_at = some now }) st.sessions;
}

-- The reference of `replaced_by` is `ON DELETE SET NULL`.
abbrev pub set_null : List RefreshToken → RefreshToken → RefreshToken
set_null rest t = elim t.replaced_by [
  | none ↦ t
  | some i ↦ if is_some (token_with i rest) then t else record t { replaced_by = none }
]

-- Deletes sessions by their ids; the reference of a token to its session is
-- `ON DELETE CASCADE`.
unfoldable pub delete_sessions : (ℕ → Bool) → Store → Store
delete_sessions gone st =
    let rest = keep (λ t. not (gone t.session_id)) st.tokens in
    record { sessions = keep (λ s. not (gone s.id)) st.sessions; tokens = map (set_null rest) rest }
