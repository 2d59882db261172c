-- ===== src/Auth/Registration/Soundness/Accounts.antt =====
-- internal/api/auth/registration/queries.sql: the rows of a new account, against the invariant.
use stash_it_backend.Base.{
  ℕ, ◌≡◌, ap, subst, arith, true, false, ◌||◌, ◌==◌, ==_iff, List, ◌∷◌, All, All-map, All-both,
  All-find, find, find-none, find-pass, find-of_is_some, find-of_count, find-updated, count-of_find,
  Unique-agree, count_where, count_where_mono, is_some, ok,
}
use stash_it_backend.Base.Text.{Text}
use stash_it_backend.Auth.Registration.{
  User, UnsortedCollection, PasswordCredential, AuthIdentity, Store,
}
use stash_it_backend.Auth.Registration.Statements.{
  create_user, create_unsorted_collection, is_completable, complete_pending_registration,
}
use stash_it_backend.Auth.Registration.Soundness.Facts.{
  is_proven, is_ground, is_grounded, HasUnsorted, IsSound, Follows, has_address, has_continuation,
}

-- The registration that a completion changed is the one that its caller knows, so it grounds an
-- account of its address.
pub complete_pending_registration-ground :
    (s : Store) (now i : ℕ) (email : Text)
    → IsSound s
    → has_address i email s ≡ true
    → is_proven s.requests i ≡ true
    → (complete_pending_registration now i s).0 ≡ 1
    → is_some
        (find (is_ground s.requests email) (complete_pending_registration now i s).1.registrations)
      ≡ true
unfolding complete_pending_registration
complete_pending_registration-ground s now i email v known proven one =
    let (x, hx) = find-of_is_some _ s.registrations known in
    let (y, hy) =
      find-of_is_some (is_completable now i) s.registrations
        (find-of_count (is_completable now i) s.registrations (omega (arith, one))) in
    let known_x = find-pass _ s.registrations x hx in
    let due_y = find-pass (is_completable now i) s.registrations y hy in
    let same : y ≡ x =
      Unique-agree (λ r. r.id) _ (is_completable now i) s.registrations x y v.registration_ids hx hy
        (ground arith) in
    let named : x.id ≡ i = (==_iff x.id i).0 (ground arith) in
    find-updated (is_ground s.requests email) (is_completable now i) _ s.registrations y hy
      (let proven_x : is_proven s.requests x.id ≡ true = rw named proven in rw same (ground arith))

-- What a caller knows of a continuation proves its registration.
pub continuation-proven :
    (s : Store) (i subject : ℕ)
    → IsSound s
    → has_continuation i subject s ≡ true
    → is_proven s.requests subject ≡ true
continuation-proven s i subject v known =
    let (c, h) = find-of_is_some _ s.continuations known in
    let pass = find-pass _ s.continuations c h in
    let named : c.pending_registration_id ≡ subject = (==_iff _ _).0 (ground arith) in
    subst (λ x. is_proven s.requests x ≡ true) named
      (All-find (λ c. is_proven s.requests c.pending_registration_id ≡ true) _ s.continuations c
        v.continuations h)

-- The rows that a new account adds.
abbrev pub joined :
    User → UnsortedCollection → List PasswordCredential → List AuthIdentity → Store → Store
joined u n ps is s = record s {
  users = u ∷ s.users;
  unsorted = n ∷ s.unsorted;
  credentials = ps;
  identities = is;
}

pub record IsNew (us : List User) (ns : List UnsortedCollection) (u : User) (n : UnsortedCollection)
    : Type 0 where
  pub owner : n.user_id ≡ u.id
  pub fresh_user : is_some (find (λ x. x.id == u.id) us) ≡ false
  pub fresh_owner : count_where (λ c. c.user_id == u.id) ns ≡ 0

new_collections :
    (us : List User) (ns : List UnsortedCollection) (u : User) (n : UnsortedCollection)
    → IsNew us ns u n
    → All (HasUnsorted ns) us
    → All (HasUnsorted (n ∷ ns)) (u ∷ us)
unfolding count_where
new_collections us ns u n new h = (
  ground (arith, new.owner, new.fresh_owner),
  All-map us (λ x g. ground (arith, new.owner))
      (All-both (λ x. (x.id == u.id) ≡ false) (HasUnsorted ns) us
        (find-none (λ x. x.id == u.id) us new.fresh_user) h),
)

-- A new account follows, once its address has a ground.
pub joined-Follows :
    (st s : Store) (u : User) (n : UnsortedCollection) (ps : List PasswordCredential)
    (is : List AuthIdentity)
    → Follows st s
    → IsNew s.users s.unsorted u n
    → is_grounded s.registrations s.requests u ≡ true
    → Follows st (joined u n ps is s)
joined-Follows st s u n ps is v new ground_of = (
  record {
    registration_ids = v.0.registration_ids;
    request_ids = v.0.request_ids;
    code_ids = v.0.code_ids;
    unused = v.0.unused;
    evidence = v.0.evidence;
    addresses = v.0.addresses;
    continuations = v.0.continuations;
    accounts = (ground_of, v.0.accounts);
    collections = new_collections s.users s.unsorted u n new v.0.collections;
  },
  record {
    requests = v.1.requests;
    registrations = v.1.registrations;
    verified = v.1.verified;
    completed = v.1.completed;
    codes = v.1.codes;
    continuations = v.1.continuations;
  },
)

-- The first two statements of a finalization.
pub create_user-unsorted :
    (s t1 t2 : Store) (new new_collection : ℕ) (email name : Text) (at : ℕ) (u : User)
    (n : UnsortedCollection)
    → create_user new email name at s ≡ ok (u, t1)
    → create_unsorted_collection new_collection u.id t1 ≡ ok (n, t2)
    → (t2 ≡ joined u n s.credentials s.identities s)
      × (u.email ≡ email)
      × IsNew s.users s.unsorted u n
unfolding create_user create_unsorted_collection
create_user-unsorted s t1 t2 new new_collection email name at u n e e' =
    let same : t1 ≡ record s { users = u ∷ s.users } = ground arith in
    let same' : t2 ≡ record t1 { unsorted = n ∷ t1.unsorted } = ground arith in
    let free : is_some (find (λ x. (x.id == new_collection) || (x.user_id == u.id)) t1.unsorted)
        ≡ false =
      ground arith in
    (
      ground arith,
      ground arith,
      record {
        owner = ground arith;
        fresh_user = ground arith;
        fresh_owner =
            subst (λ ns. count_where (λ c. c.user_id == u.id) ns ≡ 0)
              (ap (λ (t : Store). t.unsorted) same)
              (omega (
                arith,
                count_where_mono (λ (c : UnsortedCollection). c.user_id == u.id)
                    (λ x. (x.id == new_collection) || (x.user_id == u.id)) t1.unsorted
                    (λ x h. ground arith),
                count-of_find _ t1.unsorted free,
              ));
      },
    )
