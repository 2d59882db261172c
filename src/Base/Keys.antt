-- ===== src/Base/Keys.antt =====
-- The rows of a table as a list: what a search finds, and keys that no two rows share.
use Prim.Native.Nat.{ℕ, ◌≤◌, ◌<◌}
use mathlib.Core.Path.{◌≡◌, refl, subst}
use mathlib.Core.Logic.{inl, inr}
use mathlib.Core.Bool.{Bool, true, false}
use mathlib.Core.List.{List, [], ◌∷◌}
use mathlib.Core.Option.{some}
use native.Mathlib.Omega.{arith}
use stash_it_backend.Base.Tests.{◌==◌, Bool-cases, Option-cases, is_some}
use stash_it_backend.Base.Lists.{keep, find, update_where, count_where, All, All-map, All-keep}

module _ {ℓ} {A : Type ℓ} where
  pub find-none :
      (p : A → Bool) (xs : List A) → is_some (find p xs) ≡ false → All (λ y. p y ≡ false) xs
  unfolding find
  find-none p [] h = tt
  find-none p (x ∷ xs) h = ground (arith, find-none p xs)

  pub find-pass : (p : A → Bool) (xs : List A) (x : A) → find p xs ≡ some x → p x ≡ true
  unfolding find
  find-pass p [] x h = cc
  find-pass p (y ∷ xs) x h = ground (arith, find-pass p xs x)

  pub some-injective : (x y : A) → some x ≡ some y → x ≡ y
  some-injective x y h = cc

  pub All-find {κ} :
      (P : A → Type κ) (p : A → Bool) (xs : List A) (x : A) → All P xs → find p xs ≡ some x → P x
  unfolding find
  All-find P p [] x a h = cc
  All-find P p (y ∷ xs) x a h = elim (Bool-cases (p y)) [
    | inl e ↦ subst P (some-injective _ _ (rw e at h)) a.0
    | inr e ↦ All-find P p xs x a.1 (rw e at h)
  ]

  pub All-update {κ μ} :
      (P : A → Type κ) (Q : A → Type μ) (p : A → Bool) (f : A → A) (xs : List A)
      → ((x : A) → p x ≡ true → P x → Q (f x))
      → ((x : A) → p x ≡ false → P x → Q x)
      → All P xs
      → All Q (update_where p f xs)
  unfolding update_where
  All-update P Q p f [] h g a = tt
  All-update P Q p f (x ∷ xs) h g a = elim (Bool-cases (p x)) [
    | inl e ↦ rw e (h x e a.0, All-update P Q p f xs h g a.1)
    | inr e ↦ rw e (g x e a.0, All-update P Q p f xs h g a.1)
  ]

  pub All-both {κ μ} :
      (P : A → Type κ) (Q : A → Type μ) (xs : List A)
      → All P xs
      → All Q xs
      → All (λ x. P x × Q x) xs
  All-both P Q [] p q = tt
  All-both P Q (x ∷ xs) p q = ((p.0, q.0), All-both P Q xs p.1 q.1)

  -- No two elements have the same key.
  abbrev pub Unique : (A → ℕ) → List A → Type ℓ
  Unique key [] = Unit
  Unique key (x ∷ xs) = All (λ y. (key y == key x) ≡ false) xs × Unique key xs

  pub Unique-keep :
      (key : A → ℕ) (p : A → Bool) (xs : List A) → Unique key xs → Unique key (keep p xs)
  unfolding keep
  Unique-keep key p [] u = tt
  Unique-keep key p (x ∷ xs) u = elim (Bool-cases (p x)) [
    | inl e ↦ rw e (All-keep _ p xs u.0, Unique-keep key p xs u.1)
    | inr e ↦ rw e (Unique-keep key p xs u.1)
  ]

  pub Unique-update :
      (key : A → ℕ) (p : A → Bool) (f : A → A) (xs : List A)
      → ((x : A) → key (f x) ≡ key x)
      → Unique key xs
      → Unique key (update_where p f xs)
  unfolding update_where
  Unique-update key p f [] h u = tt
  Unique-update key p f (x ∷ xs) h u = elim (Bool-cases (p x)) [
    | inl e ↦
        rw (e, h x)
          (
            All-update _ _ p f xs (λ y _ q. rw (h y) q) (λ y _ q. q) u.0,
            Unique-update key p f xs h u.1,
          )
    | inr e ↦ rw e (
      All-update _ _ p f xs (λ y _ q. rw (h y) q) (λ y _ q. q) u.0,
      Unique-update key p f xs h u.1,
    )
  ]

  -- The row that a search found is the only one with its key.
  pub Unique-found :
      (key : A → ℕ) (p : A → Bool) (xs : List A) (x : A)
      → Unique key xs
      → find p xs ≡ some x
      → All (λ y. (key y == key x) ≡ true → y ≡ x) xs
  unfolding find
  Unique-found key p [] x u h = tt
  Unique-found key p (y ∷ xs) x u h = elim (Bool-cases (p y)) [
    | inl e ↦
        subst
          (λ z. ((key y == key z) ≡ true → y ≡ z) × All (λ w. (key w == key z) ≡ true → w ≡ z) xs)
          (some-injective _ _ (rw e at h)) ((λ _. refl), All-map xs (λ w q r. ground arith) u.0)
    | inr e ↦ (
      (λ q. ground (arith, All-find (λ z. (key z == key y) ≡ false) p xs x u.0 (rw e at h))),
      Unique-found key p xs x u.1 (rw e at h),
    )
  ]

  -- Two rows with one key are one row.
  pub Unique-agree :
      (key : A → ℕ) (p q : A → Bool) (xs : List A) (x y : A)
      → Unique key xs
      → find p xs ≡ some x
      → find q xs ≡ some y
      → (key y == key x) ≡ true
      → y ≡ x
  Unique-agree key p q xs x y u hp hq e =
      All-find (λ z. (key z == key x) ≡ true → z ≡ x) q xs y (Unique-found key p xs x u hp) hq e

  pub find-of_is_some :
      (p : A → Bool) (xs : List A) → is_some (find p xs) ≡ true → (x : A) × (find p xs ≡ some x)
  find-of_is_some p xs h = elim (Option-cases (find p xs)) [
    | inl e ↦ absurd (no_row (rw e at h))
    | inr (x, e) ↦ (x, e)
  ]
    where
      no_row : false ≡ true → ⊥
      no_row e = cc

  pub find-of_count :
      (p : A → Bool) (xs : List A) → 0 < count_where p xs → is_some (find p xs) ≡ true
  unfolding find count_where
  find-of_count p [] h = absurd (omega arith)
  find-of_count p (x ∷ xs) h = ground (arith, find-of_count p xs)

  pub count-of_find :
      (p : A → Bool) (xs : List A) → is_some (find p xs) ≡ false → count_where p xs ≡ 0
  unfolding find count_where
  count-of_find p [] h = refl
  count-of_find p (x ∷ xs) h = ground (arith, count-of_find p xs)

  -- A search is not disturbed by a change that keeps what it looks for.
  pub find-update :
      (p q : A → Bool) (f : A → A) (xs : List A)
      → ((x : A) → p x ≡ true → q x ≡ true → p (f x) ≡ true)
      → is_some (find p xs) ≡ true
      → is_some (find p (update_where q f xs)) ≡ true
  unfolding find update_where
  find-update p q f [] h e = cc
  find-update p q f (x ∷ xs) h e = ground (arith, h x, find-update p q f xs h)

  pub find-updated :
      (p q : A → Bool) (f : A → A) (xs : List A) (y : A)
      → find q xs ≡ some y
      → p (f y) ≡ true
      → is_some (find p (update_where q f xs)) ≡ true
  unfolding find update_where
  find-updated p q f [] y e h = cc
  find-updated p q f (x ∷ xs) y e h = ground (arith, find-updated p q f xs y)

  -- What is found passes any test that it passes.
  pub find-found :
      (p q : A → Bool) (xs : List A) (x : A)
      → find q xs ≡ some x
      → p x ≡ true
      → is_some (find p xs) ≡ true
  unfolding find
  find-found p q [] x e h = cc
  find-found p q (y ∷ xs) x e h = ground (arith, find-found p q xs x)

  pub find-cons :
      (p : A → Bool) (x : A) (xs : List A)
      → is_some (find p xs) ≡ true
      → is_some (find p (x ∷ xs)) ≡ true
  unfolding find
  find-cons p x xs e = ground arith

  pub find_mono :
      (p q : A → Bool) (xs : List A)
      → ((x : A) → p x ≡ true → q x ≡ true)
      → is_some (find p xs) ≡ true
      → is_some (find q xs) ≡ true
  unfolding find
  find_mono p q [] h e = cc
  find_mono p q (x ∷ xs) h e = ground (arith, h x, find_mono p q xs h)

  pub count_where-update_le :
      (p q : A → Bool) (f : A → A) (xs : List A)
      → ((x : A) → q x ≡ true → p (f x) ≡ true → p x ≡ true)
      → count_where p (update_where q f xs) ≤ count_where p xs
  unfolding count_where update_where
  count_where-update_le p q f [] h = omega arith
  count_where-update_le p q f (x ∷ xs) h = ground (arith, h x, count_where-update_le p q f xs h)
