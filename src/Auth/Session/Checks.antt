-- ===== src/Auth/Session/Checks.antt =====
-- internal/api/auth/session: the theorems at a sign-in and the calls that follow it.
use stash_it_backend.Base.{
  ℕ, ◌+◌, ◌/◌, ◌%◌, ◌≤◌, ◌≡◌, refl, true, false, List, [], ◌∷◌, none, some, ok, arith, get_elem?,
  find, keep, count_where, update_where,
}
use stash_it_backend.Base.Int.{pos}
use stash_it_backend.Base.Text.{text}
use stash_it_backend.Database.{committed, execute, commit, transaction}
use stash_it_backend.Auth.Session.{
  Metadata, Session, RefreshToken, Store, TokenRow, select_token, insert_session, insert_token,
  replace_token, touch_session, delete_sessions, session_with,
}
use stash_it_backend.Auth.Session.Repository.{
  Faults, create_session, refresh_token, decide, rotate, delete_eligible, batch, by_id,
  insert_by_id, take, is_eligible, revoke_session, revoke_session_for_user,
}
use stash_it_backend.Auth.Session.Operations.{
  Operation, creates, refreshes, ends, cleans, perform, perform_all, IsConsistent,
}
use stash_it_backend.Auth.Session.Outcomes.{Outcome, refresh_token-Outcome}
use stash_it_backend.Auth.Session.Consistency.{perform_all-IsConsistent, perform-IsConsistent}
use stash_it_backend.Auth.Session.Replay.{replay-refused}
use stash_it_backend.Auth.Session.Ended.{reuse-ends}
use stash_it_backend.Auth.Session.Cleanup.{cleanup-refused}
use stash_it_backend.Auth.Session.Boundary.{refresh_token-boundary}
use stash_it_backend.Auth.Session.Ownership.{others, revoke_session-others}
use stash_it_backend.Auth.Session.Service.{
  Meeting, session_idle_lifetime, session_cleanup_batch_size, list_sessions, live_sessions,
  by_recency, insert_recent, clamp_limit, SessionsPage,
}
use stash_it_backend.Auth.Session.Paging.{list_sessions-rank}

abbrev calm : Faults
calm = record { fails = λ _. false; commit_reply = committed }

abbrev phone : Metadata
phone = record {
  platform = text "ios";
  installation_id = none;
  device_name = some (text "phone");
  user_agent = none;
}

abbrev empty : Store
empty = record { sessions = []; tokens = [] }

empty-IsConsistent : IsConsistent empty
empty-IsConsistent = record {
  tokens = record { ids = tt; hashes = tt; linked = tt };
  sessions = tt;
}

-- User 7 signs in at 0, as session 1 with token 11 of hash 501, until 1000.
abbrev sign_in : List Operation
sign_in = creates calm 0 1 11 7 phone 1000 501 ∷ []

abbrev mine : Session
mine = record {
  id = 1;
  user_id = 7;
  metadata = phone;
  created_at = 0;
  last_activity_at = 0;
  absolute_expires_at = 1000;
  revoked_at = none;
}

abbrev first_token : RefreshToken
first_token = record {
  id = 11;
  session_id = 1;
  token_hash = 501;
  issued_at = 0;
  replaced_by = none;
}

abbrev second_token : RefreshToken
second_token = record {
  id = 12;
  session_id = 1;
  token_hash = 502;
  issued_at = 100;
  replaced_by = none;
}

abbrev signed_in : Store
signed_in = record { sessions = mine ∷ []; tokens = first_token ∷ [] }

sign_in_runs : perform_all sign_in empty ≡ signed_in
unfolding perform_all perform create_session insert_session insert_token execute commit transaction
    find
sign_in_runs = refl

signed_in-IsConsistent : IsConsistent signed_in
signed_in-IsConsistent =
    rw sign_in_runs at (perform_all-IsConsistent sign_in empty empty-IsConsistent)

abbrev row : TokenRow
row = record { token = first_token; session = mine }

first_refresh : (refresh_token calm 300 100 100 12 501 502 signed_in).0 ≡ ok (row, second_token)
unfolding refresh_token decide rotate select_token insert_token execute commit transaction find
first_refresh = refl

row_found : select_token 501 signed_in ≡ some (row, signed_in)
unfolding select_token find
row_found = refl

replay-refused_example : ¬ (
    (refresh_token calm 300 200 200 14 501 504 (
      perform_all
        (refreshes calm 300 150 150 13 502 503 ∷ cleans calm (λ _. false) 300 160 500 ∷ [])
        (refresh_token calm 300 100 100 12 501 502 signed_in).1)).0
    ≡ ok (row, second_token))
replay-refused_example =
    replay-refused calm calm 300 100 100 12 501 502 signed_in (row, second_token)
      (refreshes calm 300 150 150 13 502 503 ∷ cleans calm (λ _. false) 300 160 500 ∷ []) 300 200
      200 14 504 (row, second_token) signed_in-IsConsistent first_refresh (refl, (tt, tt))

abbrev rotated : Store
rotated = record {
  sessions = record mine { last_activity_at = 100 } ∷ [];
  tokens = second_token ∷ record first_token { replaced_by = some 12 } ∷ [];
}

rotated_runs : perform (refreshes calm 300 100 100 12 501 502) signed_in ≡ rotated
unfolding perform refresh_token decide rotate select_token insert_token replace_token touch_session
    execute commit transaction find update_where
rotated_runs = refl

rotated-IsConsistent : IsConsistent rotated
rotated-IsConsistent =
    rw rotated_runs at (
      perform-IsConsistent (refreshes calm 300 100 100 12 501 502) signed_in signed_in-IsConsistent)

abbrev old_row : TokenRow
old_row = record {
  token = record first_token { replaced_by = some 12 };
  session = record mine { last_activity_at = 100 };
}

old_row_found : select_token 501 rotated ≡ some (old_row, rotated)
unfolding select_token find
old_row_found = refl

-- The thief's replay ends the session for the owner of token 502 as well.
reuse-ends_example : ¬ (
    (refresh_token calm 300 130 130 15 502 505 (
      perform_all (ends calm 125 2 8 ∷ []) (refresh_token calm 300 120 120 14 501 504 rotated).1)).0
    ≡ ok (row, second_token))
reuse-ends_example =
    reuse-ends calm calm 300 120 120 14 501 504 rotated old_row (ends calm 125 2 8 ∷ []) 300 130 130
      15 502 505 row second_token rotated-IsConsistent old_row_found refl (λ _. refl) refl (tt, tt)
      refl

perform-IsConsistent_example :
    IsConsistent (perform (refreshes calm 300 120 120 14 501 504) rotated)
perform-IsConsistent_example =
    perform-IsConsistent (refreshes calm 300 120 120 14 501 504) rotated rotated-IsConsistent

refresh_token-Outcome_example :
    Outcome 300 120 120 14 501 504 rotated (refresh_token calm 300 120 120 14 501 504 rotated)
refresh_token-Outcome_example = refresh_token-Outcome calm 300 120 120 14 501 504 rotated

cleaned : session_with 1 (delete_eligible calm (λ _. false) 300 600 500 signed_in).1.sessions ≡ none
unfolding delete_eligible delete_sessions batch by_id insert_by_id take keep find count_where
cleaned = refl

cleanup-refused_example :
    ¬ ((refresh_token calm 300 601 601 14 501 504 signed_in).0 ≡ ok (row, second_token))
cleanup-refused_example =
    cleanup-refused calm calm (λ _. false) 300 600 500 601 601 14 501 504 signed_in row
      (row, second_token) signed_in-IsConsistent row_found cleaned (omega arith)

abbrev busy : Store
busy = record { sessions = record mine { last_activity_at = 900 } ∷ []; tokens = first_token ∷ [] }

abbrev busy_row : TokenRow
busy_row = record { token = first_token; session = record mine { last_activity_at = 900 } }

abbrev late_token : RefreshToken
late_token = record {
  id = 12;
  session_id = 1;
  token_hash = 502;
  issued_at = 1000;
  replaced_by = none;
}

inserted :
    insert_token 1000 12 1 502 busy
    ≡ some (late_token, record busy { tokens = late_token ∷ busy.tokens })
unfolding insert_token find
inserted = refl

busy_found : select_token 501 busy ≡ some (busy_row, busy)
unfolding select_token find
busy_found = refl

refresh_token-boundary_example :
    ((refresh_token calm 300 1000 1000 12 501 502 busy).0 ≡ ok (busy_row, late_token))
    × (is_eligible 300 1000 busy_row.session ≡ true)
refresh_token-boundary_example =
    refresh_token-boundary calm 300 1000 1000 12 501 502 busy
      (record busy { tokens = late_token ∷ busy.tokens }) busy_row late_token busy_found refl refl
      refl (omega arith) inserted (λ _. refl) refl

revoke_session-others_example :
    (others 8 (revoke_session calm 5 1 8 signed_in).1.sessions ≡ others 8 signed_in.sessions)
    × (others 8 (revoke_session_for_user calm 5 1 8 signed_in).1.sessions
        ≡ others 8 signed_in.sessions)
    × ((revoke_session calm 5 1 8 signed_in).1.tokens ≡ signed_in.tokens)
    × ((revoke_session_for_user calm 5 1 8 signed_in).1.tokens ≡ signed_in.tokens)
revoke_session-others_example = revoke_session-others calm 5 1 8 signed_in

abbrev quiet : ℕ → Meeting
quiet i = record { faults = calm; locked = λ _. false; at = 1000 }

one_removed :
    (delete_eligible
      (quiet 99).faults
      (quiet 99).locked
      session_idle_lifetime
      (quiet 99).at
      session_cleanup_batch_size
      signed_in).0
    ≡ ok 1
unfolding delete_eligible delete_sessions batch by_id insert_by_id take keep find count_where
one_removed = refl

list_sessions-rank_example :
    (r : SessionsPage) × (list_sessions calm 7
        (pos (0 / clamp_limit (pos 32) + 1))
        (pos 32)
        signed_in
      ≡ ok r)
    × (get_elem? r.sessions (0 % clamp_limit (pos 32)) ≡ get_elem? (live_sessions 7 signed_in) 0)
    × (r.page ≤ r.total_pages)
unfolding by_recency insert_recent keep
list_sessions-rank_example =
    list_sessions-rank calm 7 (pos 32) signed_in 0 refl refl (omega arith) (omega arith)
