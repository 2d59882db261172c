-- ===== src/Auth/Registration/Soundness/Registering.antt =====
-- internal/api/auth/registration/service.go: `RegisterManual`, `InitiateManualRecovery` and
-- `CreateSocialRegistration`, against the invariant.
use stash_it_backend.Base.{◌+◌, inl, inr, Result-cases}
use stash_it_backend.Base.Text.{Text}
use stash_it_backend.Auth.Registration.{Store, ProviderIdentity}
use stash_it_backend.Auth.Registration.Opening.{Drawn}
use stash_it_backend.Auth.Registration.Service.{
  register_manual, initiate_recovery, register_social, ensure_not_completed, normalize_email,
  registration_expires_in,
}
use stash_it_backend.Auth.Registration.Operations.{Circumstances}
use stash_it_backend.Auth.Registration.Soundness.Facts.{IsSound, Extends_refl, Follows}
use stash_it_backend.Auth.Registration.Soundness.Opening.{
  Follows_trans, create_manual_registration-Follows, create_social_registration-Follows,
  initiate_manual_recovery-Follows,
}
use stash_it_backend.Auth.Registration.Soundness.Reads.{HasTrusted}

module _ (c : Circumstances) (t : HasTrusted c) (st : Store) (sound : IsSound st) where
  start : Follows st st
  start = (sound, Extends_refl st)

  later : Follows st (c.between st)
  later = t.between st sound

  pub register_manual-Follows :
      (lower : Text → Text) (new new' : Drawn) (address : Text)
      → Follows st
          (register_manual lower c.meeting c.second_meeting c.between c.now c.db_now new new'
            address st).1
  unfolding register_manual
  register_manual-Follows lower new new' address =
      elim (Result-cases (ensure_not_completed c.meeting (normalize_email lower address) st)) [
        | inl (u, e) ↦
            rw (e, register_manual)
              (Follows_trans st _ _ later (
                create_manual_registration-Follows _ _ _ _ _ _ _ (c.between st) t.first t.second
                  later.0))
        | inr (x, e) ↦ rw (e, register_manual) start
      ]

  pub initiate_recovery-Follows :
      (lower : Text → Text) (new : Drawn) (address : Text)
      → Follows st
          (initiate_recovery lower c.meeting c.second_meeting c.between c.now c.db_now new address
            st).1
  unfolding initiate_recovery
  initiate_recovery-Follows lower new address =
      elim (Result-cases (ensure_not_completed c.meeting (normalize_email lower address) st)) [
        | inl (u, e) ↦
            rw (e, initiate_recovery)
              (Follows_trans st _ _ later (
                initiate_manual_recovery-Follows _ _ _ _ (c.now + registration_expires_in)
                  (c.between st) later.0))
        | inr (x, e) ↦ rw (e, initiate_recovery) start
      ]

  pub register_social-Follows :
      (lower : Text → Text) (new new' : Drawn) (address : Text) (identity : ProviderIdentity)
      → Follows st
          (register_social lower c.meeting c.second_meeting c.between c.now c.db_now new new'
            address identity st).1
  unfolding register_social
  register_social-Follows lower new new' address identity =
      create_social_registration-Follows _ _ _ _ _ _ _ st t.first t.second sound identity
