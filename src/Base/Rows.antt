-- ===== src/Base/Rows.antt =====
-- The row that a search finds, after an update of the rows of one key.
use mathlib.Core.Path.{subst, ◌≡◌, refl}
use mathlib.Core.Logic.{inl, inr}
use mathlib.Core.Bool.{Bool, true, false}
use mathlib.Core.Option.{none, some}
use mathlib.Core.List.{List, [], ◌∷◌}
use Prim.Native.Nat.{ℕ, ◌≤◌}
use native.Mathlib.Omega.{arith}
use stash_it_backend.Base.Tests.{◌==◌, Bool-cases}
use stash_it_backend.Base.Lists.{All, count_where, find, update_where}
use stash_it_backend.Base.Keys.{
  find-of_is_some, find-found, find-pass, Unique-agree, Unique, All-find, some-injective,
  count_where-update_le,
}

module _ {A : Type 0} where
  none-of_count : (p : A → Bool) (xs : List A) → count_where p xs ≤ 0 → find p xs ≡ none
  unfolding find count_where
  none-of_count p [] h = refl
  none-of_count p (x ∷ xs) h = ground (arith, none-of_count p xs)

  -- The found row is changed, and still passes: it is found as changed.
  pub find-update_first :
      (key : A → ℕ) (p q : A → Bool) (f : A → A) (xs : List A) (c : A)
      → Unique key xs
      → find p xs ≡ some c
      → ((x : A) → q x ≡ true → (key x == key c) ≡ true)
      → q c ≡ true
      → p (f c) ≡ true
      → find p (update_where q f xs) ≡ some (f c)
  unfolding find update_where
  find-update_first key p q f [] c u h only due still = cc
  find-update_first key p q f (x ∷ xs) c u h only due still = elim (Bool-cases (p x)) [
    | inl e ↦
        let same : x ≡ c = some-injective _ _ (rw e at h) in
        let due' : q x ≡ true = rw same due in
        let still' : p (f x) ≡ true = rw same still in rw (due', still', same) refl
    | inr e ↦
        let rest : find p xs ≡ some c = rw e at h in
        let apart : (key c == key x) ≡ false =
          All-find (λ y. (key y == key x) ≡ false) p xs c u.0 rest in
        let other : q x ≡ false = ground (arith, only x) in
        rw (other, e) (find-update_first key p q f xs c u.1 rest only due still)
  ]

  -- The only row that passes is changed, and no longer does.
  pub find-update_gone :
      (p q : A → Bool) (f : A → A) (xs : List A) (c : A)
      → count_where p xs ≤ 1
      → find p xs ≡ some c
      → ((x : A) → p (f x) ≡ true → p x ≡ true)
      → q c ≡ true
      → p (f c) ≡ false
      → find p (update_where q f xs) ≡ none
  unfolding find update_where count_where
  find-update_gone p q f [] c n h kept due gone = cc
  find-update_gone p q f (x ∷ xs) c n h kept due gone = elim (Bool-cases (p x)) [
    | inl e ↦
        let same : x ≡ c = some-injective _ _ (rw e at h) in
        let due' : q x ≡ true = rw same due in
        let gone' : p (f x) ≡ false = rw same gone in
        rw (due', gone')
          (none-of_count p (update_where q f xs)
            (omega (arith, count_where-update_le p q f xs (λ y _ k. kept y k), (rw e at n))))
    | inr e ↦ ground (arith, kept x, find-update_gone p q f xs c)
  ]

  -- A row that one search found is found by any other that only its key passes.
  pub found_again :
      (key : A → ℕ) (p q : A → Bool) (xs : List A) (c : A)
      → Unique key xs
      → find p xs ≡ some c
      → q c ≡ true
      → ((x : A) → q x ≡ true → (key x == key c) ≡ true)
      → find q xs ≡ some c
  found_again key p q xs c u h due only =
      let (y, hy) = find-of_is_some q xs (find-found q p xs c h due) in
      let same = Unique-agree key p q xs c y u h hy (only y (find-pass q xs y hy)) in
      subst (λ x. find q xs ≡ some x) same hy

  no_other :
      (key : A → ℕ) (p : A → Bool) (xs : List A) (c : A)
      → All (λ z. (key z == key c) ≡ false) xs
      → ((x : A) → p x ≡ true → (key x == key c) ≡ true)
      → count_where p xs ≡ 0
  unfolding count_where
  no_other key p [] c u only = refl
  no_other key p (x ∷ xs) c u only =
      let off = no_other key p xs c u.1 only in ground (arith, only x, u.0)

  -- A test that only one key passes counts one row.
  pub count_where-Unique :
      (key : A → ℕ) (p : A → Bool) (xs : List A) (c : A)
      → Unique key xs
      → find p xs ≡ some c
      → ((x : A) → p x ≡ true → (key x == key c) ≡ true)
      → count_where p xs ≡ 1
  unfolding find count_where
  count_where-Unique key p [] c u h only = cc
  count_where-Unique key p (x ∷ xs) c u h only = elim (Bool-cases (p x)) [
    | inl e ↦
        let same : x ≡ c = some-injective _ _ (rw e at h) in
        rw e (
          omega (
            arith,
            no_other key p xs c (subst (λ y. All (λ z. (key z == key y) ≡ false) xs) same u.0) only,
          ))
    | inr e ↦ rw e (omega (arith, count_where-Unique key p xs c u.1 (rw e at h) only))
  ]
