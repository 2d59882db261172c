-- ===== src/Auth/Session/Cleanup.antt =====
-- internal/api/auth/session: what a cleanup deletes, and how much.
use stash_it_backend.Base.{
  ℕ, zero, suc, ◌<◌, ◌≤◌, ◌≡◌, refl, ◌∙◌, sym, subst, Bool, true, not, ◌&&◌, ◌||◌, Bool-cases, inl,
  inr, List, [], ◌∷◌, none, some, Option-cases, ok, leb, length, arith, keep, find, All, All-map,
  All-keep, All-keep_self, All-both, All-find, Unique, Unique-found, is_some, find-pass,
  some-injective,
}
use stash_it_backend.Auth.Session.{
  Session, Store, TokenRow, RefreshToken, session_with, select_token, delete_sessions,
}
use stash_it_backend.Auth.Session.Repository.{
  Faults, deletes, is_eligible, is_stale, insert_by_id, by_id, take, batch, is_chosen,
  delete_eligible, refresh_token,
}
use stash_it_backend.Auth.Session.Outcomes.{
  Outcome, refused, revoked, rotated, refresh_token-Outcome,
}
use stash_it_backend.Auth.Session.Operations.{IsConsistent, select_token-token}

insert_by_id-All {κ} :
    (P : Session → Type κ) (s : Session) (ss : List Session)
    → P s
    → All P ss
    → All P (insert_by_id s ss)
unfolding insert_by_id
insert_by_id-All P s [] h a = (h, tt)
insert_by_id-All P s (x ∷ ss) h a = elim (Bool-cases (leb s.id x.id)) [
  | inl e ↦ rw e (h, a)
  | inr e ↦ rw e (a.0, insert_by_id-All P s ss h a.1)
]

by_id-All {κ} : (P : Session → Type κ) (ss : List Session) → All P ss → All P (by_id ss)
unfolding by_id
by_id-All P [] a = tt
by_id-All P (x ∷ ss) a = insert_by_id-All P x (by_id ss) a.0 (by_id-All P ss a.1)

take-All {κ} : (P : Session → Type κ) (n : ℕ) (ss : List Session) → All P ss → All P (take n ss)
unfolding take
take-All P zero ss a = tt
take-All P (suc n) [] a = tt
take-All P (suc n) (x ∷ ss) a = (a.0, take-All P n ss a.1)

length-take : (n : ℕ) (ss : List Session) → length (take n ss) ≤ n
unfolding take
length-take zero ss = omega arith
length-take (suc n) [] = omega arith
length-take (suc n) (x ∷ ss) = omega (arith, length-take n ss)

module _ (locked : ℕ → Bool) (idle now limit : ℕ) (ss : List Session) where
  -- What holds of all rows holds of a batch, and its rows are eligible.
  batch-All {κ} :
      (P : Session → Type κ)
      → All P ss
      → All (λ s. P s × (is_eligible idle now s ≡ true)) (batch locked idle now limit ss)
  unfolding batch
  batch-All P a = take-All _ limit _ (
      by_id-All _ _ (
        All-both _ _ _ (All-keep P _ ss a) (
          All-map (keep _ ss) (λ s e. ground arith)
            (All-keep_self (λ s. is_eligible idle now s && not (locked s.id)) ss))))

  pub length-batch : length (batch locked idle now limit ss) ≤ limit
  unfolding batch
  length-batch = length-take limit _

  -- A row of a batch is the row of the table with its id.
  chosen_eligible :
      (p : Session → Bool) (s : Session)
      → Unique (λ s. s.id) ss
      → find p ss ≡ some s
      → is_chosen (batch locked idle now limit ss) s.id ≡ true
      → is_eligible idle now s ≡ true
  chosen_eligible p s u f c =
      elim (Option-cases (session_with s.id (batch locked idle now limit ss))) [
        | inl e ↦ cc (rw e at c)
        | inr (x, e) ↦
            let q = All-find _ _ _ x (batch-All _ (Unique-found (λ s. s.id) p ss s u f)) e in
            subst (λ z. is_eligible idle now z ≡ true) (q.0 (find-pass _ _ x e)) q.1
      ]

eligible_unusable :
    (idle at now : ℕ) (s : Session)
    → is_eligible idle at s ≡ true
    → at < now
    → (is_some s.revoked_at || is_stale idle now s) ≡ true
eligible_unusable idle at now s h lt = ground arith

find-keep :
    (p q : Session → Bool) (ss : List Session) (s : Session)
    → find p ss ≡ some s
    → q s ≡ true
    → is_some (find p (keep q ss)) ≡ true
unfolding find keep
find-keep p q [] s h e = cc
find-keep p q (x ∷ ss) s h e = elim (Bool-cases (p x)) [
  | inl b ↦ rw (subst (λ z. q z ≡ true) (sym (some-injective x s (rw b at h))) e) (rw b refl)
  | inr b ↦ elim (Bool-cases (q x)) [
    | inl b' ↦ rw b' (rw b (find-keep p q ss s (rw b at h) e))
    | inr b' ↦ rw b' (find-keep p q ss s (rw b at h) e)
  ]
]

-- A session that is gone after a cleanup was in its batch.
gone_chosen :
    (d : Faults) (locked : ℕ → Bool) (idle at limit i : ℕ) (st : Store) (s : Session)
    → session_with i st.sessions ≡ some s
    → session_with i (delete_eligible d locked idle at limit st).1.sessions ≡ none
    → is_chosen (batch locked idle at limit st.sessions) s.id ≡ true
unfolding delete_eligible delete_sessions
gone_chosen d locked idle at limit i st s h g = elim (Bool-cases (d.fails deletes)) [
  | inl e ↦ cc (sym (rw e at g) ∙ h)
  | inr e ↦ elim (Bool-cases (is_chosen (batch locked idle at limit st.sessions) s.id)) [
    | inl b ↦ b
    | inr b ↦
        let f =
          find-keep _ (λ x. not (is_chosen (batch locked idle at limit st.sessions) x.id))
            st.sessions s h (rw b refl) in
        cc (rw (rw e at g) at f)
  ]
]

row_unique :
    (hash : ℕ) (st : Store) (row row' : TokenRow)
    → select_token hash st ≡ some (row, st)
    → select_token hash st ≡ some (row', st)
    → row ≡ row'
row_unique hash st row row' h h' = cc (sym h ∙ h')

unusable-refused :
    (idle now db_now new hash new_hash : ℕ) (st : Store) (r : _) (row : TokenRow)
    (x : TokenRow × RefreshToken)
    → select_token hash st ≡ some (row, st)
    → (is_some row.session.revoked_at || is_stale idle now row.session) ≡ true
    → Outcome idle now db_now new hash new_hash st r
    → ¬ (r.0 ≡ ok x)
unusable-refused idle now db_now new hash new_hash st r row x hs h (refused e) q = cc
unusable-refused idle now db_now new hash new_hash st r row x hs h (revoked row' e _ _) q = cc
unusable-refused idle now db_now new hash new_hash st r row x hs h
      (rotated row' t s _ hs' hv _ ha _ _) q =
    ground (
      arith,
      subst (λ z. (is_some z.session.revoked_at || is_stale idle now z.session) ≡ true)
          (row_unique hash st row row' hs hs') h,
    )

-- If a cleanup deletes a session, then no refresh with a token of that session would have
-- succeeded at any moment after the cleanup's, by the same clock and with the same idle lifetime.
pub cleanup-refused :
    (d d' : Faults) (locked : ℕ → Bool) (idle at limit now db_now new hash new_hash : ℕ)
    (st : Store) (row : TokenRow) (x : TokenRow × RefreshToken)
    → IsConsistent st
    → select_token hash st ≡ some (row, st)
    → session_with row.token.session_id (delete_eligible d locked idle at limit st).1.sessions
      ≡ none
    → at < now
    → ¬ ((refresh_token d' idle now db_now new hash new_hash st).0 ≡ ok x)
cleanup-refused d d' locked idle at limit now db_now new hash new_hash st row x c hs h lt =
    let f = (select_token-token hash st row hs).1 in
    let e =
      chosen_eligible locked idle at limit st.sessions _ row.session c.sessions f
        (gone_chosen d locked idle at limit _ st row.session f h) in
    unusable-refused idle now db_now new hash new_hash st _ row x hs
      (eligible_unusable idle at now row.session e lt)
      (refresh_token-Outcome d' idle now db_now new hash new_hash st)
