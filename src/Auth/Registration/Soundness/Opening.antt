-- ===== src/Auth/Registration/Soundness/Opening.antt =====
-- internal/api/auth/registration/repository.go: the opening of a registration or a recovery,
-- against the invariant.
use stash_it_backend.Base.{ℕ, not, ◌&&◌, inl, inr, leb, Result, Bool-cases}
use stash_it_backend.Base.Text.{Text}
use stash_it_backend.Database.{Connection, Query}
use stash_it_backend.Database.Rules.{
  attempt-bind, read-bind, update_one-bind, others-bind, commit-bind, option-rule, if-rule,
  transaction-rule,
}
use stash_it_backend.Auth.Registration.{
  ProviderIdentity, Store, RegistrationError, is_manual, is_social, is_verified,
}
use stash_it_backend.Auth.Registration.Statements.{
  ExistingRow, get_pending_recovery, has_usable_continuation, get_pending_registration_by_email,
  get_pending_social_identity, same_identity,
}
use stash_it_backend.Auth.Registration.Meeting.{Meeting}
use stash_it_backend.Auth.Registration.Opening.{
  Opened, Drawn, open_manual, keep_or_replace, decide_manual, create_manual_once, recover,
  initiate_manual_recovery, open_social, decide_same_kind, decide_social, create_social_once,
  is_email_conflict, once_more, create_manual_registration, create_social_registration,
}
use stash_it_backend.Auth.Registration.Soundness.Facts.{
  IsSound, Extends_refl, Extends_trans, Follows,
}
use stash_it_backend.Auth.Registration.Soundness.Statements.{
  create_pending_registration-Follows, create_verification_request-Follows,
  create_pending_social_identity-Follows, force_expire_social-Follows, force_expire_manual-Follows,
  expire_pending_registration-Follows,
}

-- A change that others may commit at any moment.
abbrev pub Trusted : (Store → Store) → Type 0
Trusted g = (s : Store) → IsSound s → Follows s (g s)

pub Follows_trans : (st s t : Store) → Follows st s → Follows s t → Follows st t
Follows_trans st s t a b = (b.0, Extends_trans st s t a.1 b.1)

pub Trusted-Follows :
    (g : Store → Store) (st s : Store) → Trusted g → Follows st s → Follows st (g s)
Trusted-Follows g st s h v = Follows_trans st s (g s) v (h s v.0)

module _ (d : Meeting) (now : ℕ) (new : Drawn) (email : Text) (expires_at : ℕ) (st : Store) where
  abbrev Ends : Result RegistrationError Opened × Connection Store → Type 0
  Ends x = Follows st x.1.durable

  abbrev Stands : Query Store RegistrationError Opened → Type 0
  Stands m = (c : Connection Store) → Follows st c.durable → Follows st c.view → Ends (m c)

  open_manual-Stands : Stands (open_manual d now new email expires_at)
  unfolding open_manual
  open_manual-Stands c v w =
      attempt-bind Ends _ _ _ _ c (λ _. v)
        (λ r s e.
          let w' = create_pending_registration-Follows st c.view w _ _ _ _ r s e in
          attempt-bind Ends _ _ _ _ _ (λ _. v)
            (λ q t e'.
              let w'' = create_verification_request-Follows st s w' _ _ _ q t e' in
              commit-bind Ends _ _ _ _ v w'' w''))

  keep_or_replace-Stands : (x : ExistingRow) → Stands (keep_or_replace d now new email expires_at x)
  unfolding keep_or_replace
  keep_or_replace-Stands x c v w = read-bind Ends _ _ _ _ _ c v (
      option-rule Ends (get_pending_recovery x.registration.id c.view) _ _ c (λ _ _. v)
        (λ _. read-bind Ends _ _ _ _ _ c v (
          if-rule Ends (has_usable_continuation now x.registration.id c.view) _ _ c (λ _. v)
            (λ _.
              update_one-bind Ends _ _ _ _ _ c v v
                (λ _. open_manual-Stands _ v (force_expire_manual-Follows st c.view w _))))))

  decide_manual-Stands : (x : ExistingRow) → Stands (decide_manual d now new email expires_at x)
  unfolding decide_manual
  decide_manual-Stands x c v w =
      if-rule Ends (is_social x.registration.registration_type) _ _ c
        (λ _.
          update_one-bind Ends _ _ _ _ _ c v v
            (λ _. open_manual-Stands _ v (force_expire_social-Follows st c.view w _)))
        (λ _.
          if-rule Ends (leb x.registration.expires_at now) _ _ c
            (λ _.
              update_one-bind Ends _ _ _ _ _ c v v
                (λ _. open_manual-Stands _ v (expire_pending_registration-Follows st c.view w _ _)))
            (λ _.
              if-rule Ends (not (is_verified x.request.status)) _ _ c (λ _. v)
                (λ _. keep_or_replace-Stands x c v w)))

  create_manual_once-Follows :
      Trusted d.arrivals
      → IsSound st
      → Follows st (create_manual_once d now new email expires_at st).1
  unfolding create_manual_once
  create_manual_once-Follows trusted sound =
      let v : Follows st st = (sound, Extends_refl st) in
      let v' = trusted st sound in
      transaction-rule (λ x. Follows st x.1) _ _ _ st (λ _. v)
        (λ _. read-bind Ends _ _ _ _ _ _ v (
          option-rule Ends (get_pending_registration_by_email email st) _ _ _
            (λ x _. decide_manual-Stands x _ v v)
            (λ _. others-bind Ends d.arrivals _ _ (open_manual-Stands _ v' v'))))

  recover-Stands : (x : ExistingRow) → Stands (recover d now new email x)
  unfolding recover
  recover-Stands x c v w =
      if-rule Ends (not (is_manual x.registration.registration_type)) _ _ c (λ _. v)
        (λ _.
          if-rule Ends (leb x.registration.expires_at now) _ _ c (λ _. v)
            (λ _.
              if-rule Ends (not (is_verified x.request.status)) _ _ c (λ _. v)
                (λ _. read-bind Ends _ _ _ _ _ c v (
                  option-rule Ends (get_pending_recovery x.registration.id c.view) _ _ c (λ _ _. v)
                    (λ _.
                      attempt-bind Ends _ _ _ _ c (λ _. v)
                        (λ q t e.
                          let w' = create_verification_request-Follows st c.view w _ _ _ q t e in
                          commit-bind Ends _ _ _ _ v w' w'))))))

  pub initiate_manual_recovery-Follows :
      IsSound st → Follows st (initiate_manual_recovery d now new email st).1
  unfolding initiate_manual_recovery
  initiate_manual_recovery-Follows sound =
      let v : Follows st st = (sound, Extends_refl st) in
      transaction-rule (λ x. Follows st x.1) _ _ _ st (λ _. v)
        (λ _. read-bind Ends _ _ _ _ _ _ v (
          option-rule Ends (get_pending_registration_by_email email st) _ _ _
            (λ x _. recover-Stands x _ v v) (λ _. v)))

  open_social-Stands : (i : ProviderIdentity) → Stands (open_social d now new email expires_at i)
  unfolding open_social
  open_social-Stands i c v w =
      attempt-bind Ends _ _ _ _ c (λ _. v)
        (λ r s e.
          let w1 = create_pending_registration-Follows st c.view w _ _ _ _ r s e in
          attempt-bind Ends _ _ _ _ _ (λ _. v)
            (λ p t e'.
              let w2 = create_pending_social_identity-Follows st s w1 _ _ p t e' in
              attempt-bind Ends _ _ _ _ _ (λ _. v)
                (λ q u e''.
                  let w3 = create_verification_request-Follows st t w2 _ _ _ q u e'' in
                  commit-bind Ends _ _ _ _ v w3 w3)))

  decide_same_kind-Stands :
      (i : ProviderIdentity) (x : ExistingRow) (owner : ProviderIdentity)
      → Stands (decide_same_kind d now new email expires_at i x owner)
  unfolding decide_same_kind
  decide_same_kind-Stands i x owner c v w =
      let is_expired = leb x.registration.expires_at now in
      if-rule Ends (not (same_identity owner i) && not is_expired) _ _ c (λ _. v)
        (λ _.
          if-rule Ends (not is_expired && not (is_verified x.request.status)) _ _ c (λ _. v)
            (λ _.
              if-rule Ends is_expired _ _ c
                (λ _. update_one-bind Ends _ _ _ _ _ c v v (λ _.
                  open_social-Stands i _ v (expire_pending_registration-Follows st c.view w _ _)))
                (λ _.
                  update_one-bind Ends _ _ _ _ _ c v v
                    (λ _. open_social-Stands i _ v (force_expire_social-Follows st c.view w _)))))

  decide_social-Stands :
      (i : ProviderIdentity) (x : ExistingRow)
      → Stands (decide_social d now new email expires_at i x)
  unfolding decide_social
  decide_social-Stands i x c v w =
      if-rule Ends (is_manual x.registration.registration_type) _ _ c
        (λ _.
          update_one-bind Ends _ _ _ _ _ c v v
            (λ _. open_social-Stands i _ v (force_expire_manual-Follows st c.view w _)))
        (λ _. read-bind Ends _ _ _ _ _ c v (
          option-rule Ends (get_pending_social_identity x.registration.id c.view) _ _ c
            (λ p _. decide_same_kind-Stands i x p.identity c v w) (λ _. v)))

  create_social_once-Follows :
      (i : ProviderIdentity)
      → Trusted d.arrivals
      → IsSound st
      → Follows st (create_social_once d now new email expires_at i st).1
  unfolding create_social_once
  create_social_once-Follows i trusted sound =
      let v : Follows st st = (sound, Extends_refl st) in
      let v' = trusted st sound in
      transaction-rule (λ x. Follows st x.1) _ _ _ st (λ _. v)
        (λ _. read-bind Ends _ _ _ _ _ _ v (
          option-rule Ends (get_pending_registration_by_email email st) _ _ _
            (λ x _. decide_social-Stands i x _ v v)
            (λ _. others-bind Ends d.arrivals _ _ (open_social-Stands i _ v' v'))))

once_more-Follows :
    (f g : Store → Result RegistrationError Opened × Store) (st : Store)
    → Follows st (f st).1
    → ((s : Store) → IsSound s → Follows s (g s).1)
    → Follows st (once_more f g st).1
unfolding once_more
once_more-Follows f g st v h = elim (Bool-cases (is_email_conflict (f st).0)) [
  | inl e ↦ rw (e, once_more) (Follows_trans st _ _ v (h _ v.0))
  | inr e ↦ rw (e, once_more) v
]

module _ (d d' : Meeting) (now : ℕ) (new new' : Drawn) (email : Text) (expires_at : ℕ) (st : Store)
    (trusted : Trusted d.arrivals) (trusted' : Trusted d'.arrivals) (sound : IsSound st) where
  pub create_manual_registration-Follows :
      Follows st (create_manual_registration d d' now new new' email expires_at st).1
  unfolding create_manual_registration
  create_manual_registration-Follows =
      once_more-Follows (create_manual_once d now new email expires_at)
        (create_manual_once d' now new' email expires_at) st
        (create_manual_once-Follows d now new email expires_at st trusted sound)
        (λ s h. create_manual_once-Follows d' now new' email expires_at s trusted' h)

  pub create_social_registration-Follows :
      (i : ProviderIdentity)
      → Follows st (create_social_registration d d' now new new' email expires_at i st).1
  unfolding create_social_registration
  create_social_registration-Follows i =
      once_more-Follows (create_social_once d now new email expires_at i)
        (create_social_once d' now new' email expires_at i) st
        (create_social_once-Follows d now new email expires_at st i trusted sound)
        (λ s h. create_social_once-Follows d' now new' email expires_at s i trusted' h)
