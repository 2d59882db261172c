-- ===== src/Auth/Session/Rotation.antt =====
-- internal/api/auth/session: a rotation keeps the table of tokens sound and spends the token.
use stash_it_backend.Base.{
  ℕ, ◌≡◌, refl, sym, ap, ◌∙◌, subst, true, false, ◌==◌, ==_iff, Bool-cases, inl, inr, List, ◌∷◌,
  some, find, update_where, All, All-both, All-update, arith, is_some, Unique-update, Unique-found,
  find-pass,
}
use stash_it_backend.Auth.Session.{RefreshToken, Store, token_hashed}
use stash_it_backend.Auth.Session.Tables.{IsSound, Inserts, session_of-update, cons-IsSound}

-- A token with this hash was rotated.
abbrev pub IsSpent : ℕ → RefreshToken → Type 0
IsSpent h t = (t.token_hash == h) ≡ true → is_some t.replaced_by ≡ true

abbrev pub Spent : ℕ → List RefreshToken → Type 0
Spent h = All (IsSpent h)

-- The rotation of `current` to a token `t` that was inserted before.
module _ (new new_hash hash : ℕ) (st s : Store) (current t : RefreshToken) (v : IsSound st.tokens)
    (n : Inserts new current.session_id new_hash st s t)
    (found : token_hashed hash st.tokens ≡ some current) where
  abbrev both : List RefreshToken
  both = t ∷ st.tokens

  abbrev replaced : List RefreshToken
  replaced = update_where (λ u. u.id == current.id) (λ u. record u { replaced_by = some t.id }) both

  found-cons : token_hashed hash both ≡ some current
  unfolding find
  found-cons = elim (Bool-cases (t.token_hash == hash)) [
    | inl e ↦ cc (
        rw found at (
          subst (λ z. is_some (token_hashed z st.tokens) ≡ false)
            (sym n.token_hash ∙ (==_iff _ _).0 e) n.fresh_hash))
    | inr e ↦ rw e found
  ]

  current_only :
      All
        (λ u.
          ((u.id == current.id) ≡ true → u ≡ current)
          × ((u.token_hash == current.token_hash) ≡ true → u ≡ current))
        both
  current_only =
      All-both _ _ both
        (Unique-found (λ u. u.id) _ both current (cons-IsSound _ _ _ st s t v n).ids found-cons)
        (Unique-found (λ u. u.token_hash) _ both current (cons-IsSound _ _ _ st s t v n).hashes
          found-cons)

  pub rotation-Spent : Spent hash replaced
  rotation-Spent =
      All-update _ _ _ _ both (λ u _ _ _. refl)
        (λ u e q h. ground (arith, ap (λ z. z.id) (q.1 (ground (arith, find-pass _ _ _ found)))))
        current_only

  pub rotation-IsSound : IsSound replaced
  rotation-IsSound = record {
    ids = Unique-update _ _ _ both (λ _. refl) (cons-IsSound _ _ _ st s t v n).ids;
    hashes = Unique-update _ _ _ both (λ _. refl) (cons-IsSound _ _ _ st s t v n).hashes;
    linked =
        All-update _ _ _ _ both
          (λ u e q i h.
            session_of-update _ t.id i both
            ∙ ground (arith, ap (λ z. z.session_id) (q.1.0 e), n.session_id))
          (λ u e q i h. session_of-update _ t.id i both ∙ q.0 i h)
          (All-both _ _ both (cons-IsSound _ _ _ st s t v n).linked current_only);
  }

pub cons-Spent :
    (h new session new_hash : ℕ) (st s : Store) (t : RefreshToken)
    → Inserts new session new_hash st s t
    → (new_hash == h) ≡ false
    → Spent h st.tokens
    → Spent h (t ∷ st.tokens)
cons-Spent h new session new_hash st s t n e a = ((λ q. ground (arith, n.token_hash)), a)

pub replace-Spent :
    (h i new : ℕ) (ts : List RefreshToken)
    → Spent h ts
    → Spent h (update_where (λ u. u.id == i) (λ u. record u { replaced_by = some new }) ts)
replace-Spent h i new ts a = All-update _ _ _ _ ts (λ _ _ _ _. refl) (λ _ _ q. q) a
