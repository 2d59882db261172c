-- ===== src/Auth/Session/Service.antt =====
-- internal/api/auth/session/service.go and constants.go. The functions of internal/security that
-- it calls (`GenerateToken`, `HashToken`, the signature of an access token) are arguments.
use stash_it_backend.Base.{
  ℕ, zero, suc, ◌+◌, ◌-◌, ◌*◌, ◌/◌, ◌%◌, ◌^◌, Bool, true, false, not, ◌&&◌, List, [], ◌∷◌, Option,
  none, some, Result, ok, err, ltb, ◌==◌, if◌then◌else◌, keep, is_some, length,
}
use stash_it_backend.Base.Int.{ℤ, pos, negsuc, is_positive, leb_ℤ, to_ℕ}
use stash_it_backend.Auth.Session.{Metadata, Session, Store}
use stash_it_backend.Auth.Session.Repository.{
  Faults, SessionError, internal, selects, counts, create_session, refresh_token, delete_eligible,
  take,
}

abbrev pub seconds : ℕ → ℕ
seconds n = n * 1000000000

abbrev pub session_absolute_lifetime : ℕ
session_absolute_lifetime = seconds (90 * 24 * 3600)

abbrev pub session_idle_lifetime : ℕ
session_idle_lifetime = seconds (30 * 24 * 3600)

abbrev pub access_token_lifetime : ℕ
access_token_lifetime = seconds (15 * 60)

abbrev pub session_list_default_limit : ℕ
session_list_default_limit = 20

abbrev pub session_list_max_limit : ℕ
session_list_max_limit = 50

abbrev pub session_cleanup_batch_size : ℕ
session_cleanup_batch_size = 500

abbrev pub session_cleanup_max_batches : ℕ
session_cleanup_max_batches = 100

-- `CreateSession`: the session and the token for its owner.
unfoldable pub start_session :
    (hash_token : ℕ → ℕ) (d : Faults) (now db_now new new_token : ℕ) (drawn : Option ℕ) (user : ℕ)
    (m : Metadata)
    → Store
    → Result SessionError (Session × ℕ) × Store
start_session hash_token d now db_now new new_token drawn user m st = elim drawn [
  | none ↦ (err internal, st)
  | some token ↦
      let (r, s) =
        create_session d db_now new new_token user m (now + session_absolute_lifetime)
          (hash_token token) st in
      elim r [ ok x ↦ (ok (x.0, token), s) | err e ↦ (err e, s) ]
]

pub record RefreshTokenResult : Type 0 where
  pub access_token : ℕ
  pub refresh_token : ℕ

-- `RefreshToken`: `sign` is the access token generator.
unfoldable pub refresh_session :
    (hash_token : ℕ → ℕ) (sign : ℕ → ℕ → ℕ → Option ℕ) (d : Faults) (now db_now new : ℕ)
    (drawn : Option ℕ) (presented : ℕ)
    → Store
    → Result SessionError RefreshTokenResult × Store
refresh_session hash_token sign d now db_now new drawn presented st = elim drawn [
  | none ↦ (err internal, st)
  | some token ↦
      let (r, s) =
        refresh_token d session_idle_lifetime now db_now new (hash_token presented)
          (hash_token token) st in
      elim r [
        | err e ↦ (err e, s)
        | ok x ↦ elim (sign x.0.session.user_id x.0.token.session_id access_token_lifetime) [
          | none ↦ (err internal, s)
          | some a ↦ (ok (record { access_token = a; refresh_token = token }), s)
        ]
      ]
]

-- The parameters of a page as the service reads them.
unfoldable pub clamp_page : ℤ → ℕ
clamp_page p = if leb_ℤ (pos 1) p then to_ℕ p else 1

unfoldable pub clamp_limit : ℤ → ℕ
clamp_limit l =
    let n = if is_positive l then to_ℕ l else session_list_default_limit in
    if ltb session_list_max_limit n then session_list_max_limit else n

-- `int32`, of a number that an `int` of 64 bits holds.
unfoldable pub int32 : ℕ → ℤ
int32 n = let m = n % 2 ^ 32 in if ltb m (2 ^ 31) then pos m else negsuc (2 ^ 32 - m - 1)

-- `ORDER BY last_activity_at DESC, id DESC`.
abbrev pub comes_first : Session → Session → Bool
comes_first a b =
    if a.last_activity_at == b.last_activity_at
    then ltb b.id a.id
    else ltb b.last_activity_at a.last_activity_at

unfoldable pub insert_recent : Session → List Session → List Session
insert_recent s [] = s ∷ []
insert_recent s (x ∷ xs) = if comes_first s x then s ∷ x ∷ xs else x ∷ insert_recent s xs

unfoldable pub by_recency : List Session → List Session
by_recency [] = []
by_recency (x ∷ xs) = insert_recent x (by_recency xs)

abbrev pub live_sessions : ℕ → Store → List Session
live_sessions user st =
    by_recency (keep (λ s. (s.user_id == user) && not (is_some s.revoked_at)) st.sessions)

unfoldable pub drop {ℓ} : {A : Type ℓ} → ℕ → List A → List A
drop zero xs = xs
drop (suc n) [] = []
drop (suc n) (x ∷ xs) = drop n xs

-- The query `ListSessions`: a negative offset is an error of the database.
unfoldable pub select_page : ℕ → ℤ → ℕ → Store → Option (List Session)
select_page user (pos offset) limit st = some (take limit (drop offset (live_sessions user st)))
select_page user (negsuc n) limit st = none

pub record SessionsPage : Type 0 where
  pub sessions : List Session
  pub page : ℕ
  pub limit : ℕ
  pub total : ℕ
  pub total_pages : ℕ

-- `ListSessions`. The product may wrap around at 2 ^ 64, which `int32` does not see.
unfoldable pub list_sessions : Faults → ℕ → ℤ → ℤ → Store → Result SessionError SessionsPage
list_sessions d user p l st =
    let page = clamp_page p in
    let limit = clamp_limit l in
    let total = length (live_sessions user st) in
    if d.fails selects
    then err internal
    else elim (select_page user (int32 ((page - 1) * limit)) limit st) [
      | none ↦ err internal
      | some rows ↦
          if d.fails counts
          then err internal
          else ok (record {
            sessions = rows;
            page = page;
            limit = limit;
            total = total;
            total_pages = if ltb 0 total then (total + limit - 1) / limit else 0;
          })
    ]

pub record CleanupResult : Type 0 where
  pub deleted_sessions : ℕ
  pub batches : ℕ
  pub backlog_capped : Bool

-- What one statement of the cleanup meets: what fails, which rows are locked, the time.
pub record Meeting : Type 0 where
  pub faults : Faults
  pub locked : ℕ → Bool
  pub at : ℕ

-- The loop of `CleanupSessions`, from a number of batches and of deleted rows on. The fuel is the
-- number of batches that the cap still allows.
unfoldable pub clean :
    (ℕ → Meeting) → (fuel batches deleted : ℕ) → Store → Result SessionError CleanupResult × Store
clean meets zero batches deleted st = (
  ok (record {
    deleted_sessions = deleted;
    batches = batches;
    backlog_capped = batches == session_cleanup_max_batches;
  }),
  st,
)
clean meets (suc fuel) batches deleted st =
    let m = meets batches in
    let (r, s) =
      delete_eligible m.faults m.locked session_idle_lifetime m.at session_cleanup_batch_size st in
    elim r [
      | err e ↦ (err e, s)
      | ok removed ↦ elim (ltb removed session_cleanup_batch_size) [
        | true ↦ (
          ok (record {
            deleted_sessions = deleted + removed;
            batches = suc batches;
            backlog_capped = suc batches == session_cleanup_max_batches;
          }),
          s,
        )
        | false ↦ clean meets fuel (suc batches) (deleted + removed) s
      ]
    ]

-- `CleanupSessions`.
unfoldable pub cleanup_sessions : (ℕ → Meeting) → Store → Result SessionError CleanupResult × Store
cleanup_sessions meets st = clean meets session_cleanup_max_batches 0 0 st
