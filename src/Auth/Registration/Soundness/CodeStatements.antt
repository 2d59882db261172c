-- ===== src/Auth/Registration/Soundness/CodeStatements.antt =====
-- internal/api/auth/registration/queries.sql: the statements on codes, against the invariant.
use stash_it_backend.Base.{
  Bool-cases, ◌≤◌, count-of_find, find-none, find-cons, ℕ, ◌+◌, ◌≡◌, refl, sym, subst, false, List,
  ◌∷◌, some, ◌==◌, ==_iff, inl, inr, Option-cases, find, count_where, update_where, is_some, ok,
  arith,
}
use stash_it_backend.Base.Text.{Text}
use stash_it_backend.Auth.Registration.{VerificationCode, Store}
use stash_it_backend.Auth.Registration.Statements.{
  is_consumable, has_attempts, invalidate_verification_code, create_verification_code,
  increment_code_attempts, consume_verification_code, is_unused,
}
use stash_it_backend.Auth.Registration.Soundness.Facts.{is_consumed, Follows}
use stash_it_backend.Auth.Registration.Soundness.Codes.{codes-Follows, codes_updated-Follows}

one_more_code :
    (c : VerificationCode) (ks : List VerificationCode)
    → is_some (find (is_unused c.verification_request_id) ks) ≡ false
    → ((i : ℕ) → count_where (is_unused i) ks ≤ 1)
    → (i : ℕ) → count_where (is_unused i) (c ∷ ks) ≤ 1
unfolding count_where
one_more_code c ks free h i = elim (Bool-cases (c.verification_request_id == i)) [
  | inr other ↦ ground (arith, other, h i)
  | inl same ↦
      let none_yet : count_where (is_unused i) ks ≡ 0 =
        subst (λ x. count_where (is_unused x) ks ≡ 0) ((==_iff c.verification_request_id i).0 same)
          (count-of_find (is_unused c.verification_request_id) ks free) in
      ground (arith, none_yet)
]

module _ (st s : Store) (v : Follows st s) where
  pub invalidate_verification_code-Follows :
      (now request : ℕ) → Follows st (invalidate_verification_code now request s)
  unfolding invalidate_verification_code
  invalidate_verification_code-Follows now request =
      elim (Option-cases (find (is_unused request) s.codes)) [
        | inl e ↦
            let same : invalidate_verification_code now request s ≡ s = ground arith in
            subst (Follows st) (sym same) v
        | inr (c, e) ↦
            let cut = λ (x : VerificationCode). record x { invalidated_at = some now } in
            let same : invalidate_verification_code now request s
                ≡ record s { codes = update_where (λ x. x.id == c.id) cut s.codes } =
              ground arith in
            subst (Follows st) (sym same) (
              codes_updated-Follows st s v (λ x. x.id == c.id) cut (λ x. (refl, refl))
                (λ i x h. ground arith) (λ x h. h))
      ]

  pub create_verification_code-Follows :
      (new request : ℕ) (hash : Text) (expires : ℕ) (c : VerificationCode) (t : Store)
      → create_verification_code new request hash expires s ≡ ok (c, t)
      → Follows st t
  unfolding create_verification_code
  create_verification_code-Follows new request hash expires c t e =
      let same : t ≡ record s { codes = c ∷ s.codes } = ground arith in
      subst (Follows st) (sym same) (
        codes-Follows st s v (c ∷ s.codes)
          (find-none (λ x. x.id == c.id) s.codes (ground arith), v.0.code_ids)
          (one_more_code c s.codes (ground arith) v.0.unused)
          (λ i h. find-cons (is_consumed i) c s.codes h) (λ i j h. find-cons _ c s.codes h))

  pub consume_verification_code-Follows :
      (now i : ℕ) → Follows st (consume_verification_code now i s).1
  unfolding consume_verification_code
  consume_verification_code-Follows now i =
      codes_updated-Follows st s v (is_consumable now i) (λ x. record x { consumed_at = some now })
        (λ x. (refl, refl)) (λ j x h. ground arith) (λ x h. refl)

  pub increment_code_attempts-Follows :
      (i max n : ℕ) (t : Store) → increment_code_attempts i max s ≡ ok (n, t) → Follows st t
  unfolding increment_code_attempts
  increment_code_attempts-Follows i max n t e =
      let more = λ (x : VerificationCode). record x { attempts = x.attempts + 1 } in
      let same : t ≡ record s { codes = update_where (has_attempts i max) more s.codes } =
        ground arith in
      subst (Follows st) (sym same) (
        codes_updated-Follows st s v (has_attempts i max) more (λ x. (refl, refl)) (λ j x h. h)
          (λ x h. h))
