-- ===== src/Auth/Registration/Checks/Mails.antt =====
-- internal/api/auth/registration/service.go: a code that is mailed.
use stash_it_backend.Base.{◌≡◌, refl, some, ok, none, [], keep, find, update_where}
use stash_it_backend.Base.Text.{text, text_eq}
use stash_it_backend.Base.Space.{trim_space, trim_right, trim_left, is_space}
use stash_it_backend.RateLimit.SortedSets.Memory as Sets
use stash_it_backend.RateLimit.Reply.{delivered, validate, retry_after}
use stash_it_backend.RateLimit.Sliding.{sliding_allow, admit_to_sliding_window}
use stash_it_backend.RateLimit.Key.{derive_key, join_key, encode_hex, hex_digit}
use stash_it_backend.Email.{
  new_pin_email_budget, reserve_global, reserve_per_email, deliver, attempted,
}
use stash_it_backend.Security.VerificationCode.{generate_code, pad_decimal}
use stash_it_backend.Database.{transaction, execute, attempt, commit}
use stash_it_backend.Auth.Registration.Statements.{
  VerificationRow, get_verification, create_verification_code, invalidate_verification_code,
  update_request_pin_issued,
}
use stash_it_backend.Auth.Registration.Verification.{read_verification, issue_verification_code}
use stash_it_backend.Auth.Registration.Service.{
  validate_verification_pending, ensure_cooldown_elapsed, normalize_email,
}
use stash_it_backend.Auth.Registration.Issuance.{
  Issue, Message, new_verification_pin_email, hand_over, store_and_send, issue_code, check_issuance,
  reserve_both, answer_per_email, answer_global,
}
use stash_it_backend.Auth.Registration.Issued.{IsMailed, issue_code-IsMailed}
use stash_it_backend.Auth.Registration.Checks.{address, mac, meeting, budget, store}

abbrev pub issue : Issue
issue = record {
  now = 900000000000;
  db_now = 900000000000;
  redis_now = 5;
  email_link = delivered;
  global_link = delivered;
  refund_link = delivered;
  email_member = some (text "a");
  global_member = some (text "b");
  drawn_code = some 42;
  new_code = 9;
  sent = none;
}

abbrev mail : Message
mail = new_verification_pin_email address (text "000042")

handed :
    (issue_code Sets.memory budget
      (λ t. t)
      mac
      []
      meeting
      (λ s. s)
      issue
      2
      store
      Sets.nothing_stored).1.handed
    ≡ some mail
unfolding issue_code check_issuance reserve_both store_and_send hand_over read_verification
    get_verification find validate_verification_pending ensure_cooldown_elapsed answer_per_email
    answer_global reserve_per_email reserve_global sliding_allow admit_to_sliding_window validate
    new_pin_email_budget Sets.write keep retry_after text_eq generate_code pad_decimal
    issue_verification_code transaction execute attempt commit invalidate_verification_code
    create_verification_code update_request_pin_issued update_where normalize_email trim_space
    deliver attempted derive_key join_key encode_hex trim_right trim_left is_space hex_digit
handed = refl

issue_code-IsMailed_example :
    (v : VerificationRow) × (check_issuance Sets.memory budget
        (λ t. t)
        mac
        []
        meeting
        issue.now
        2
        store
      ≡ ok v)
    × IsMailed Sets.memory budget
        (λ t. t)
        mac
        []
        meeting
        issue
        2
        v.registration.email
        mail
        (issue_code Sets.memory budget
          (λ t. t)
          mac
          []
          meeting
          (λ s. s)
          issue
          2
          store
          Sets.nothing_stored).1.tables
issue_code-IsMailed_example =
    issue_code-IsMailed Sets.memory budget (λ t. t) mac [] meeting (λ s. s) issue 2 store
      Sets.nothing_stored mail handed
