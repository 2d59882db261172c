-- ===== src/Auth/Registration/Operations.antt =====
-- internal/api/auth/registration/service.go: the calls of the service in any order, with what others
-- commit while each of them runs.
use stash_it_backend.Base.{ℕ, List, [], ◌∷◌}
use stash_it_backend.Base.Text.{Text}
use stash_it_backend.RateLimit.SortedSets.{SortedSets}
use stash_it_backend.Email.{PinEmailBudget}
use stash_it_backend.Auth.Registration.{ProviderIdentity, Store}
use stash_it_backend.Auth.Registration.Meeting.{Meeting}
use stash_it_backend.Auth.Registration.Opening.{Drawn}
use stash_it_backend.Auth.Registration.Service.{
  Completion, register_manual, initiate_recovery, register_social, verify_registration,
}
use stash_it_backend.Auth.Registration.Issuance.{Issue, issue_code}
use stash_it_backend.Auth.Registration.Accounts.{
  NewAccount, Hashing, finalize_manual_registration, finalize_social_account,
}

-- What every call meets: its own faults, those of a second run, the clocks, and what others commit
-- between its first call of the repository and the next, and before the last one.
pub record Circumstances : Type 0 where
  pub meeting : Meeting
  pub second_meeting : Meeting
  pub between : Store → Store
  pub before_write : Store → Store
  pub now : ℕ
  pub db_now : ℕ

pub data Call (R : Type 0) : Type 0 where
  registers : Drawn → Drawn → Text → Call R
  recovers : Drawn → Text → Call R
  registers_social : Drawn → Drawn → Text → ProviderIdentity → Call R
  issues : Issue → ℕ → R → Call R
  verifies : Completion → ℕ → Text → Call R
  finalizes : Text → NewAccount → Hashing → Call R
  finalizes_social : Text → NewAccount → Call R

module _ (redis : SortedSets) (b : PinEmailBudget) (lower hash_token : Text → Text)
    (mac : Text → Text → List ℕ) (secret : Text) where
  abbrev pub Operation : Type 0
  Operation = Circumstances × Call redis.Store

  unfoldable pub perform : Operation → Store → Store
  perform (c, registers new new' address) st =
      (register_manual lower c.meeting c.second_meeting c.between c.now c.db_now new new' address
        st).1
  perform (c, recovers new address) st =
      (initiate_recovery lower c.meeting c.second_meeting c.between c.now c.db_now new address st).1
  perform (c, registers_social new new' address identity) st =
      (register_social lower c.meeting c.second_meeting c.between c.now c.db_now new new' address
        identity st).1
  perform (c, issues x i s) st =
      (issue_code redis b lower mac secret c.meeting c.between x i st s).1.tables
  perform (c, verifies new i pin) st =
      (verify_registration hash_token mac secret c.meeting c.between c.before_write c.now c.db_now
        new i pin st).1
  perform (c, finalizes token n h) st =
      (finalize_manual_registration hash_token c.meeting c.between c.now c.db_now token n h st).1
  perform (c, finalizes_social token n) st =
      (finalize_social_account hash_token c.meeting c.between c.now c.db_now token n st).1

  unfoldable pub perform_all : List Operation → Store → Store
  perform_all [] st = st
  perform_all (o ∷ os) st = perform_all os (perform o st)
