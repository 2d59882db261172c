-- ===== src/Auth/Registration/Finalized.antt =====
-- internal/api/auth/registration: what `FinalizeManualRegistration` leaves behind.
use stash_it_backend.Base.{ℕ, ◌≡◌, ◌⊎◌, refl, sym, subst, arith, ◌∷◌, inl, inr, Result, ok, err}
use stash_it_backend.Base.Text.{Text}
use stash_it_backend.Database.{Connection, reply_lost}
use stash_it_backend.Database.Rules.{
  attempt-bind, update_one-bind, commit_reply-bind, transaction-rule,
}
use stash_it_backend.Auth.Registration.{User, Store, RegistrationError}
use stash_it_backend.Auth.Registration.Statements.{
  create_user, create_unsorted_collection, create_password_credential,
  consume_registration_continuation, complete_pending_registration,
}
use stash_it_backend.Auth.Registration.Meeting.{Meeting}
use stash_it_backend.Auth.Registration.Finalization.{
  Finalization, spend_and_complete, finalize_manual,
}

module _ (d : Meeting) (now : ℕ) (p : Finalization) (password_hash : Text) (st : Store) where
  -- The rows of the new account.
  abbrev pub new_user : User
  new_user = record {
    id = p.new_user;
    email = p.email;
    display_name = p.display_name;
    email_verified_at = p.email_verified_at;
  }

  abbrev pub with_rows : Store
  with_rows = record st {
    users = new_user ∷ st.users;
    unsorted = record { id = p.new_collection; user_id = p.new_user } ∷ st.unsorted;
    credentials = record { user_id = p.new_user; password_hash = password_hash } ∷ st.credentials;
  }

  -- The tables with the account: its continuation was usable and is spent, its registration was
  -- pending and is completed.
  abbrev pub IsAccount : Store → Type 0
  IsAccount s =
      ((consume_registration_continuation now p.continuation_id st).0 ≡ 1)
      × ((complete_pending_registration now p.registration_id st).0 ≡ 1)
      × (s
          ≡ (complete_pending_registration now p.registration_id
              (consume_registration_continuation now p.continuation_id with_rows).1).1)

  abbrev pub IsOutcome : Result RegistrationError User × Store → Type 0
  IsOutcome x =
      ((x.0 ≡ ok new_user) × IsAccount x.1)
      ⊎ (((e : RegistrationError) × (x.0 ≡ err e))
          × ((x.1 ≡ st) ⊎ ((d.commit_reply ≡ reply_lost) × IsAccount x.1)))

  abbrev Ends : Result RegistrationError User × Connection Store → Type 0
  Ends x = IsOutcome (x.0, x.1.durable)

  unchanged : (e : RegistrationError) → IsOutcome (err e, st)
  unchanged e = inr ((e, refl), inl refl)

  spend_and_complete-IsOutcome :
      Ends (spend_and_complete d now p new_user (record { durable = st; view = with_rows }))
  unfolding spend_and_complete consume_registration_continuation complete_pending_registration
  spend_and_complete-IsOutcome =
      update_one-bind Ends _ _ _ _ _ _ (unchanged _) (unchanged _) (λ spent.
        update_one-bind Ends _ _ _ _ _ _ (unchanged _) (unchanged _) (λ done.
          commit_reply-bind Ends _ _ _ _ (λ _. unchanged _)
            (λ lost. inr ((_, refl), inr (lost, (spent, done, refl))))
            (λ _. inl (refl, (spent, done, refl)))))

  -- A manual finalization happens as a whole or not at all: an answered user has his user row, his
  -- Unsorted collection and his password's hash stored, a continuation that could be used is spent
  -- and a pending registration is completed, by one commit; an error leaves the tables as they were,
  -- or with all of that if only the reply to the commit was lost.
  pub finalize_manual-IsOutcome : IsOutcome (finalize_manual d now p password_hash st)
  unfolding finalize_manual create_user create_unsorted_collection create_password_credential
  finalize_manual-IsOutcome =
      transaction-rule IsOutcome _ _ _ st (λ _. unchanged _)
        (λ _.
          attempt-bind Ends _ _ _ _ _ (λ e. unchanged e)
            (λ u t1 e1.
              attempt-bind Ends _ _ _ _ _ (λ e. unchanged e)
                (λ n t2 e2.
                  attempt-bind Ends _ _ _ _ _ (λ e. unchanged e)
                    (λ x t3 e3.
                      let same : t3 ≡ with_rows = ground arith in
                      let named : u ≡ new_user = ground arith in
                      subst
                        (λ (y : User × Store).
                          Ends
                            (spend_and_complete d now p y.0 (record { durable = st; view = y.1 })))
                        (λ i. (sym named i, sym same i)) spend_and_complete-IsOutcome))))
