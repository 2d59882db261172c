-- ===== src/Auth/Registration/Guesses.antt =====
-- internal/api/auth/registration/service.go: `VerifyRegistration`, called again and again.
use stash_it_backend.Base.{
  ℕ, suc, ◌+◌, ◌≡◌, ◌≤◌, refl, sym, subst, arith, true, false, List, [], ◌∷◌, All, length, ==_refl,
  leb, ltb, if◌then◌else◌, Result, ok, err, none, some, find, count_where_mono, find-pass,
  found_again, find-update_first, find-update_gone, update_where, Bool-cases, inl, inr,
}
use stash_it_backend.Base.Text.{Text}
use stash_it_backend.Security.VerificationCode.{verify_code}
use stash_it_backend.Auth.Registration.{
  VerificationCode, Store, RegistrationError, conflict, unnamed, invalid_verification_code,
  verification_code_attempts_exceeded,
}
use stash_it_backend.Auth.Registration.Statements.{
  is_unused, VerificationRow, is_active, has_attempts, get_active_verification_code,
  increment_code_attempts, get_verification,
}
use stash_it_backend.Auth.Registration.Meeting.{
  Meeting, reads_verification, reads_code, counts_attempt,
}
use stash_it_backend.Auth.Registration.Verification.{
  read_verification, read_active_code, count_attempt,
}
use stash_it_backend.Auth.Registration.Service.{
  Completion, pending_verification, count_wrong, verify_registration,
  verification_code_max_attempts,
}
use stash_it_backend.Auth.Registration.Soundness.{
  IsSound, Extends_refl, increment_code_attempts-Follows,
}

module _ (hash_token : Text → Text) (mac : Text → Text → List ℕ) (secret : Text) (d : Meeting)
    (now db_now : ℕ) (new : Completion) (i : ℕ) where
  abbrev pub guess : Text → Store → Result RegistrationError Text × Store
  guess = verify_registration hash_token mac secret d (λ s. s) (λ s. s) now db_now new i

  -- Guesses one after the other.
  unfoldable pub guess_all : List Text → Store → Store
  guess_all [] st = st
  guess_all (p ∷ ps) st = guess_all ps (guess p st).1

  abbrev pub active : Store → Result RegistrationError VerificationCode
  active = read_active_code d db_now i verification_code_max_attempts

  -- What is left of a code after `n` attempts.
  abbrev pub left : VerificationCode → ℕ → Result RegistrationError VerificationCode
  left c n =
      if leb verification_code_max_attempts n
      then err (conflict unnamed)
      else ok (record c { attempts = n })

  active-below :
      (st : Store) (c : VerificationCode)
      → active st ≡ ok c
      → ltb c.attempts verification_code_max_attempts ≡ true
  unfolding read_active_code get_active_verification_code
  active-below st c current =
      let found : find (is_active db_now i verification_code_max_attempts) st.codes ≡ some c =
        ground arith in
      ground (arith, find-pass (is_active db_now i verification_code_max_attempts) st.codes c found)

  module _
      (answers : (d.fails reads_verification ≡ false)
        × (d.fails reads_code ≡ false)
        × (d.fails counts_attempt ≡ false)) where
    -- One wrong guess.
    module _ (st : Store) (sound : IsSound st) (v : VerificationRow) (c : VerificationCode)
        (pending : pending_verification d now i st ≡ ok v) (current : active st ≡ ok c) (p : Text)
        (wrong : verify_code mac secret p c.code_hash ≡ false) where
      counted : Store
      counted = record st {
        codes =
            update_where (has_attempts c.id verification_code_max_attempts)
              (λ x. record x { attempts = x.attempts + 1 }) st.codes;
      }

      found : find (is_active db_now i verification_code_max_attempts) st.codes ≡ some c
      unfolding read_active_code get_active_verification_code
      found = ground arith

      counted_row : find (has_attempts c.id verification_code_max_attempts) st.codes ≡ some c
      unfolding read_active_code get_active_verification_code
      counted_row =
          let due =
            find-pass (is_active db_now i verification_code_max_attempts) st.codes c found in
          found_again (λ c. c.id) _ _ st.codes c sound.code_ids found (ground (arith, ==_refl c.id))
            (λ x h. ground arith)

      guess_wrong : guess p st ≡ (
        err (
            conflict (
              if leb verification_code_max_attempts (c.attempts + 1)
              then verification_code_attempts_exceeded
              else invalid_verification_code)),
        counted,
      )
      unfolding verify_registration count_wrong count_attempt increment_code_attempts counted
      guess_wrong = ground (arith, pending, current, wrong, answers.2, counted_row)

      counted-IsSound : IsSound counted
      unfolding increment_code_attempts counted
      counted-IsSound =
          (increment_code_attempts-Follows st st (sound, Extends_refl st) c.id
            verification_code_max_attempts (c.attempts + 1) counted (ground (arith, counted_row))).0

      counted-pending : pending_verification d now i counted ≡ ok v
      unfolding pending_verification read_verification get_verification counted
      counted-pending = pending

      counted-active : active counted ≡ (
          if leb verification_code_max_attempts (c.attempts + 1)
          then err (conflict unnamed)
          else ok (record c { attempts = c.attempts + 1 }))
      unfolding read_active_code get_active_verification_code counted
      counted-active =
          let more = λ (x : VerificationCode). record x { attempts = x.attempts + 1 } in
          let p = is_active db_now i verification_code_max_attempts in
          let q = has_attempts c.id verification_code_max_attempts in
          let due = find-pass p st.codes c found in
          let due' = find-pass q st.codes c counted_row in
          elim (Bool-cases (leb verification_code_max_attempts (c.attempts + 1))) [
            | inl e ↦
                let gone : find p (update_where q more st.codes) ≡ none =
                  find-update_gone p q more st.codes c
                    (omega (
                      arith,
                      sound.unused i,
                      count_where_mono p (is_unused i) st.codes (λ x h. ground arith),
                    ))
                    found (λ x h. ground arith) due' (ground arith) in
                ground (arith, gone, answers.1, e)
            | inr e ↦
                let still : find p (update_where q more st.codes) ≡ some (more c) =
                  find-update_first (λ x. x.id) p q more st.codes c sound.code_ids found
                    (λ x h. ground arith) due' (ground arith) in
                ground (arith, still, answers.1, e)
          ]

    -- A guess that finds no active code changes nothing.
    refused_all :
        (ps : List Text) (st : Store) (v : VerificationRow)
        → pending_verification d now i st ≡ ok v
        → active st ≡ err (conflict unnamed)
        → guess_all ps st ≡ st
    unfolding guess_all verify_registration
    refused_all [] st v pending none_left = refl
    refused_all (p ∷ ps) st v pending none_left =
        let same : (guess p st).1 ≡ st = ground (arith, pending, none_left) in
        subst (λ s. guess_all ps s ≡ st) (sym same) (refused_all ps st v pending none_left)

  -- The codes of a request, after wrong guesses at its active one, none of which fails: the code is
  -- still active, with one attempt counted for each guess, as long as they are fewer than five in
  -- all; after that the request has no active code, so that further guesses, the right one
  -- included, are refused and change no row.
  pub guess_all-active :
      (answers : (d.fails reads_verification ≡ false)
        × (d.fails reads_code ≡ false)
        × (d.fails counts_attempt ≡ false))
      (ps : List Text) (st : Store) (v : VerificationRow) (c : VerificationCode)
      → IsSound st
      → pending_verification d now i st ≡ ok v
      → active st ≡ ok c
      → All (λ p. verify_code mac secret p c.code_hash ≡ false) ps
      → (pending_verification d now i (guess_all ps st) ≡ ok v)
        × (active (guess_all ps st) ≡ left c (c.attempts + length ps))
  unfolding guess_all
  guess_all-active answers [] st v c sound pending current wrong =
      let below = active-below st c current in
      let all : c.attempts ≡ c.attempts + 0 = omega arith in
      (pending, subst (λ n. active st ≡ left c n) all (ground (arith, current, below)))
  guess_all-active answers (p ∷ ps) st v c sound pending current wrong =
      let w = guess_wrong answers st sound v c pending current p wrong.0 in
      let s = counted answers st sound v c pending current p wrong.0 in
      let v' = counted-pending answers st sound v c pending current p wrong.0 in
      let now_active = counted-active answers st sound v c pending current p wrong.0 in
      subst
        (λ (x : Result RegistrationError Text × Store).
          (pending_verification d now i (guess_all ps x.1) ≡ ok v)
          × (active (guess_all ps x.1) ≡ left c (c.attempts + suc (length ps))))
        (sym w)
        (elim (Bool-cases (leb verification_code_max_attempts (c.attempts + 1))) [
          | inl e ↦
              let over : active s ≡ err (conflict unnamed) = rw e at now_active in
              let stuck = refused_all answers ps s v v' over in
              (rw stuck v', rw stuck (ground (arith, over)))
          | inr e ↦
              let c' : VerificationCode = record c { attempts = c.attempts + 1 } in
              let step =
                guess_all-active answers ps s v c'
                  (counted-IsSound answers st sound v c pending current p wrong.0) v'
                  (rw e at now_active) wrong.1 in
              let all : c.attempts + 1 + length ps ≡ c.attempts + suc (length ps) = omega arith in
              (step.0, subst (λ n. active (guess_all ps s) ≡ left c n) all step.1)
        ])

  -- Wrong guesses at an active code that bring its attempts to five or more, none of which fails:
  -- any further guess, the right one included, is refused without a change of a row.
  pub guesses_run_out :
      (answers : (d.fails reads_verification ≡ false)
        × (d.fails reads_code ≡ false)
        × (d.fails counts_attempt ≡ false))
      (ps : List Text) (st : Store) (v : VerificationRow) (c : VerificationCode) (p : Text)
      → IsSound st
      → pending_verification d now i st ≡ ok v
      → active st ≡ ok c
      → All (λ p. verify_code mac secret p c.code_hash ≡ false) ps
      → verification_code_max_attempts ≤ c.attempts + length ps
      → guess p (guess_all ps st) ≡ (err (conflict unnamed), guess_all ps st)
  unfolding verify_registration
  guesses_run_out answers ps st v c p sound pending current wrong many =
      let (still, rest) = guess_all-active answers ps st v c sound pending current wrong in
      ground (arith, still, rest)
