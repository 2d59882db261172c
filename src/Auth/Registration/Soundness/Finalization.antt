-- ===== src/Auth/Registration/Soundness/Finalization.antt =====
-- internal/api/auth/registration/repository.go: both finalizations, against the invariant.
use stash_it_backend.Base.{ℕ, ◌≡◌, sym, subst, arith, true, List, find, is_some, Result}
use stash_it_backend.Base.Text.{Text}
use stash_it_backend.Database.{Connection}
use stash_it_backend.Database.Rules.{
  attempt-bind, read-bind, update_one-bind, commit-bind, option-rule, transaction-rule,
}
use stash_it_backend.Auth.Registration.{
  ProviderIdentity, User, UnsortedCollection, PasswordCredential, AuthIdentity, Store,
  RegistrationError,
}
use stash_it_backend.Auth.Registration.Statements.{
  create_password_credential, create_auth_identity, consume_registration_continuation,
  complete_pending_registration, get_pending_social_identity,
}
use stash_it_backend.Auth.Registration.Meeting.{Meeting}
use stash_it_backend.Auth.Registration.Finalization.{
  Finalization, spend_and_complete, finalize_manual, finalize_identity, finalize_social,
}
use stash_it_backend.Auth.Registration.Soundness.Facts.{
  is_ground, IsSound, Extends_refl, Follows, has_address, has_continuation,
}
use stash_it_backend.Auth.Registration.Soundness.Statements.{
  consume_registration_continuation-Follows, complete_pending_registration-Follows,
}
use stash_it_backend.Auth.Registration.Soundness.Accounts.{
  complete_pending_registration-ground, continuation-proven, joined, IsNew, joined-Follows,
  create_user-unsorted,
}

module _ (d : Meeting) (st : Store) (sound : IsSound st) (now : ℕ) (p : Finalization)
    (known_address : has_address p.registration_id p.email st ≡ true)
    (known : has_continuation p.continuation_id p.registration_id st ≡ true) where
  start : Follows st st
  start = (sound, Extends_refl st)

  abbrev Ends : Result RegistrationError User × Connection Store → Type 0
  Ends x = Follows st x.1.durable

  spend_and_complete-Follows :
      (u : User) (n : UnsortedCollection) (ps : List PasswordCredential) (is : List AuthIdentity)
      → u.email ≡ p.email
      → IsNew st.users st.unsorted u n
      → Ends (spend_and_complete d now p u (record { durable = st; view = joined u n ps is st }))
  unfolding spend_and_complete consume_registration_continuation complete_pending_registration
  spend_and_complete-Follows u n ps is address new =
      let s1 = (consume_registration_continuation now p.continuation_id st).1 in
      let w1 = consume_registration_continuation-Follows st st start now p.continuation_id in
      let s2 = (complete_pending_registration now p.registration_id s1).1 in
      let w2 = complete_pending_registration-Follows st s1 w1 now p.registration_id in
      update_one-bind Ends _ _ _ _ _ _ start start (λ _.
        update_one-bind Ends _ _ _ _ _ _ start start (λ one.
          let w3 = joined-Follows st s2 u n ps is w2 new (
            subst (λ e. is_some (find (is_ground s2.requests e) s2.registrations) ≡ true)
              (sym address)
              (complete_pending_registration-ground s1 now p.registration_id p.email w1.0
                known_address
                (continuation-proven st p.continuation_id p.registration_id sound known) one)) in
          commit-bind Ends _ _ _ _ start w3 w3))

  pub finalize_manual-Follows :
      (password_hash : Text) → Follows st (finalize_manual d now p password_hash st).1
  unfolding finalize_manual create_password_credential
  finalize_manual-Follows password_hash =
      transaction-rule (λ x. Follows st x.1) _ _ _ st (λ _. start)
        (λ _.
          attempt-bind Ends _ _ _ _ _ (λ _. start)
            (λ u t1 e1.
              attempt-bind Ends _ _ _ _ _ (λ _. start)
                (λ n t2 e2.
                  attempt-bind Ends _ _ _ _ _ (λ _. start)
                    (λ x t3 e3.
                      let (same, address, new) =
                        create_user-unsorted st t1 t2 _ _ _ _ _ u n e1 e2 in
                      let at_end : t3 ≡ joined u n t3.credentials st.identities st = ground arith in
                      subst
                        (λ t.
                          Ends (spend_and_complete d now p u (record { durable = st; view = t })))
                        (sym at_end)
                        (spend_and_complete-Follows u n t3.credentials st.identities address
                          new)))))

  finalize_identity-Follows :
      (i : ProviderIdentity)
      → Ends (finalize_identity d now p i (record { durable = st; view = st }))
  unfolding finalize_identity create_auth_identity
  finalize_identity-Follows i =
      attempt-bind Ends _ _ _ _ _ (λ _. start)
        (λ u t1 e1.
          attempt-bind Ends _ _ _ _ _ (λ _. start)
            (λ n t2 e2.
              attempt-bind Ends _ _ _ _ _ (λ _. start)
                (λ x t3 e3.
                  let (same, address, new) = create_user-unsorted st t1 t2 _ _ _ _ _ u n e1 e2 in
                  let at_end : t3 ≡ joined u n st.credentials t3.identities st = ground arith in
                  subst
                    (λ t. Ends (spend_and_complete d now p u (record { durable = st; view = t })))
                    (sym at_end)
                    (spend_and_complete-Follows u n st.credentials t3.identities address new))))

  pub finalize_social-Follows : Follows st (finalize_social d now p st).1
  unfolding finalize_social
  finalize_social-Follows =
      transaction-rule (λ x. Follows st x.1) _ _ _ st (λ _. start)
        (λ _. read-bind Ends _ _ _ _ _ _ start (
          option-rule Ends (get_pending_social_identity p.registration_id st) _ _ _
            (λ x _. finalize_identity-Follows x.identity) (λ _. start)))
