-- ===== src/Auth/Registration/Statements/Accounts.antt =====
-- internal/api/auth/registration/queries.sql: the statements on continuations and on what an
-- account consists of.
use stash_it_backend.Base.{
  ℕ, Bool, not, ◌&&◌, ◌||◌, ◌∷◌, Option, none, some, ltb, ◌==◌, if◌then◌else◌, find, update_where,
  count_where, is_some, ok, err,
}
use stash_it_backend.Base.Text.{Text, text_eq}
use stash_it_backend.Auth.Registration.{
  PendingRegistration, Continuation, User, UnsortedCollection, PasswordCredential, ProviderIdentity,
  PendingSocialIdentity, AuthIdentity, Store, user_already_exists, auth_identity_already_exists,
  internal, conflict,
}
use stash_it_backend.Auth.Registration.Statements.Pending.{Answer, registration_with}

-- The reference to the registration, and the unique indexes on it and on the hash.
unfoldable pub create_registration_continuation : ℕ → ℕ → Text → ℕ → Store → Answer Continuation
create_registration_continuation new subject hash expires st =
    let c : Continuation = record {
      id = new;
      pending_registration_id = subject;
      token_hash = hash;
      expires_at = expires;
      consumed_at = none;
    } in
    if is_some (
        find
          (λ x.
            (x.id == new) || ((x.pending_registration_id == subject) || text_eq x.token_hash hash))
          st.continuations)
      || not (is_some (registration_with subject st.registrations))
    then err internal
    else ok (c, record st { continuations = c ∷ st.continuations })

unfoldable pub has_usable_continuation : ℕ → ℕ → Store → Bool
has_usable_continuation now i st = is_some (
    find
      (λ c.
        (c.pending_registration_id == i) && (not (is_some c.consumed_at) && ltb now c.expires_at))
      st.continuations)

-- A row of the join of `GetRegistrationContinuation`.
pub record ContinuationRow : Type 0 where
  pub continuation : Continuation
  pub registration : PendingRegistration

unfoldable pub get_registration_continuation : Text → Store → Option ContinuationRow
get_registration_continuation hash st =
    elim (find (λ c. text_eq c.token_hash hash) st.continuations) [
      | none ↦ none
      | some c ↦ elim (registration_with c.pending_registration_id st.registrations) [
        | none ↦ none
        | some r ↦ some (record { continuation = c; registration = r })
      ]
    ]

unfoldable pub create_user : ℕ → Text → Text → ℕ → Store → Answer User
create_user new email name verified_at st =
    let u : User = record {
      id = new;
      email = email;
      display_name = name;
      email_verified_at = verified_at;
    } in
    if is_some (find (λ x. x.id == new) st.users)
    then err internal
    else if is_some (find (λ x. text_eq x.email email) st.users)
    then err (conflict user_already_exists)
    else ok (u, record st { users = u ∷ st.users })

-- `collections_system_key_unique`.
unfoldable pub create_unsorted_collection : ℕ → ℕ → Store → Answer UnsortedCollection
create_unsorted_collection new user st =
    let c : UnsortedCollection = record { id = new; user_id = user } in
    if is_some (find (λ x. (x.id == new) || (x.user_id == user)) st.unsorted)
      || not (is_some (find (λ x. x.id == user) st.users))
    then err internal
    else ok (c, record st { unsorted = c ∷ st.unsorted })

unfoldable pub create_password_credential : ℕ → Text → Store → Answer PasswordCredential
create_password_credential user hash st =
    let c : PasswordCredential = record { user_id = user; password_hash = hash } in
    if is_some (find (λ x. x.user_id == user) st.credentials)
      || not (is_some (find (λ x. x.id == user) st.users))
    then err internal
    else ok (c, record st { credentials = c ∷ st.credentials })

abbrev pub is_usable_continuation : ℕ → ℕ → Continuation → Bool
is_usable_continuation now i c =
    (c.id == i) && (not (is_some c.consumed_at) && ltb now c.expires_at)

unfoldable pub consume_registration_continuation : ℕ → ℕ → Store → ℕ × Store
consume_registration_continuation now i st = (
  count_where (is_usable_continuation now i) st.continuations,
  record st {
    continuations =
        update_where (is_usable_continuation now i) (λ c. record c { consumed_at = some now })
          st.continuations;
  },
)

unfoldable pub get_pending_social_identity : ℕ → Store → Option PendingSocialIdentity
get_pending_social_identity i st = find (λ x. x.pending_registration_id == i) st.pending_identities

abbrev pub same_identity : ProviderIdentity → ProviderIdentity → Bool
same_identity a b = text_eq a.provider b.provider && text_eq a.provider_subject b.provider_subject

-- One for each registration; a violation has no code of its own.
unfoldable pub create_pending_social_identity :
    ℕ → ProviderIdentity → Store → Answer PendingSocialIdentity
create_pending_social_identity subject identity st =
    let p : PendingSocialIdentity = record {
      pending_registration_id = subject;
      identity = identity;
    } in
    if is_some (find (λ x. x.pending_registration_id == subject) st.pending_identities)
      || not (is_some (registration_with subject st.registrations))
    then err internal
    else ok (p, record st { pending_identities = p ∷ st.pending_identities })

-- `auth_identities_provider_subject_unique`.
unfoldable pub create_auth_identity : ℕ → ProviderIdentity → Store → Answer AuthIdentity
create_auth_identity user identity st =
    let a : AuthIdentity = record { user_id = user; identity = identity } in
    if not (is_some (find (λ x. x.id == user) st.users))
    then err internal
    else if is_some (find (λ x. same_identity x.identity identity) st.identities)
    then err (conflict auth_identity_already_exists)
    else ok (a, record st { identities = a ∷ st.identities })
