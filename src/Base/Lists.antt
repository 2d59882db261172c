-- ===== src/Base/Lists.antt =====
-- Lists measured, indexed and counted by native numbers, under the library's names.
use Prim.Native.Nat.{ℕ, zero, suc, ◌+◌, ◌≤◌, ◌<◌}
use mathlib.Core.Path.{◌≡◌, refl, ap}
use mathlib.Core.Logic.{inl, inr}
use mathlib.Core.Bool.{Bool, true, false, ◌&&◌}
use mathlib.Core.List.{List, [], ◌∷◌, ◌++◌}
use mathlib.Core.Option.{Option, none, some}
use native.Mathlib.Omega.{arith}
use stash_it_backend.Base.Tests.{bit, Bool-cases, if◌then◌else◌}

module _ {ℓ} {A : Type ℓ} where
  abbrev pub length : List A → ℕ
  length [] = 0
  length (x ∷ xs) = suc (length xs)

  abbrev pub get_elem? : List A → ℕ → Option A
  get_elem? [] i = none
  get_elem? (x ∷ xs) zero = some x
  get_elem? (x ∷ xs) (suc i) = get_elem? xs i

  -- A write out of bounds changes nothing.
  abbrev pub set : List A → ℕ → A → List A
  set [] i v = []
  set (x ∷ xs) zero v = v ∷ xs
  set (x ∷ xs) (suc i) v = x ∷ set xs i v

  -- The elements that pass a test, in order.
  unfoldable pub keep : (A → Bool) → List A → List A
  keep p [] = []
  keep p (x ∷ xs) = if p x then x ∷ keep p xs else keep p xs

  -- How many elements pass a test.
  unfoldable pub count_where : (A → Bool) → List A → ℕ
  count_where p [] = 0
  count_where p (x ∷ xs) = bit (p x) + count_where p xs

  -- The first element that passes a test.
  unfoldable pub find : (A → Bool) → List A → Option A
  find p [] = none
  find p (x ∷ xs) = if p x then some x else find p xs

  -- A change of the elements that pass a test.
  unfoldable pub update_where : (A → Bool) → (A → A) → List A → List A
  update_where p f [] = []
  update_where p f (x ∷ xs) = (if p x then f x else x) ∷ update_where p f xs

  abbrev pub All {κ} : (A → Type κ) → List A → Type κ
  All P [] = Unit
  All P (x ∷ xs) = P x × All P xs

module _ {ℓ} {A : Type ℓ} where
  pub length-append : (xs ys : List A) → length (xs ++ ys) ≡ length xs + length ys
  length-append [] ys = omega arith
  length-append (x ∷ xs) ys = omega (arith, length-append xs ys)

  -- A write moves one element from one side of each count to the other.
  pub count_where-set :
      (p : A → Bool) (xs : List A) (i : ℕ) (old new : A)
      → get_elem? xs i ≡ some old
      → count_where p (set xs i new) + bit (p old) ≡ count_where p xs + bit (p new)
  unfolding count_where
  count_where-set p [] i old new e = ground arith
  count_where-set p (x ∷ xs) zero old new e = ground arith
  count_where-set p (x ∷ xs) (suc i) old new e = omega (arith, count_where-set p xs i old new e)

  pub get_elem?-set_self :
      (xs : List A) (i : ℕ) (old v : A)
      → get_elem? xs i ≡ some old
      → get_elem? (set xs i v) i ≡ some v
  get_elem?-set_self [] i old v h = cc
  get_elem?-set_self (x ∷ xs) zero old v h = refl
  get_elem?-set_self (x ∷ xs) (suc i) old v h = get_elem?-set_self xs i old v h

  pub get_elem?-set_ne :
      (xs : List A) (i j : ℕ) (v : A) → (i ≡ j → ⊥) → get_elem? (set xs i v) j ≡ get_elem? xs j
  get_elem?-set_ne [] i j v h = refl
  get_elem?-set_ne (x ∷ xs) zero zero v h = absurd (h refl)
  get_elem?-set_ne (x ∷ xs) zero (suc j) v h = refl
  get_elem?-set_ne (x ∷ xs) (suc i) zero v h = refl
  get_elem?-set_ne (x ∷ xs) (suc i) (suc j) v h = get_elem?-set_ne xs i j v (λ e. h (ap suc e))

  -- An element of the list is one of those counted.
  pub count_where-ge :
      (p : A → Bool) (xs : List A) (i : ℕ) (x : A)
      → get_elem? xs i ≡ some x
      → bit (p x) ≤ count_where p xs
  unfolding count_where
  count_where-ge p [] i x e = ground arith
  count_where-ge p (y ∷ xs) zero x e = ground arith
  count_where-ge p (y ∷ xs) (suc i) x e = omega (arith, count_where-ge p xs i x e)

  pub count_where-le-length : (p : A → Bool) (xs : List A) → count_where p xs ≤ length xs
  unfolding count_where
  count_where-le-length p [] = omega arith
  count_where-le-length p (x ∷ xs) = ground (arith, count_where-le-length p xs)

  pub count_where-pos :
      (p : A → Bool) (xs : List A) (i : ℕ) (x : A)
      → get_elem? xs i ≡ some x
      → p x ≡ true
      → 0 < count_where p xs
  unfolding count_where
  count_where-pos p [] i x e h = ground arith
  count_where-pos p (y ∷ xs) zero x e h = ground arith
  count_where-pos p (y ∷ xs) (suc i) x e h = omega (arith, count_where-pos p xs i x e h)

  pub length-keep-le : (p : A → Bool) (xs : List A) → length (keep p xs) ≤ length xs
  unfolding keep
  length-keep-le p [] = omega arith
  length-keep-le p (x ∷ xs) = ground (arith, length-keep-le p xs)

  pub length-keep : (p : A → Bool) (xs : List A) → length (keep p xs) ≡ count_where p xs
  unfolding keep count_where
  length-keep p [] = refl
  length-keep p (x ∷ xs) = ground (arith, length-keep p xs)

  -- Dropping elements that a count leaves out changes no count.
  pub count_where-keep :
      (p q : A → Bool) (xs : List A)
      → ((x : A) → p x ≡ true → q x ≡ true)
      → count_where p (keep q xs) ≡ count_where p xs
  unfolding keep count_where
  count_where-keep p q [] h = refl
  count_where-keep p q (x ∷ xs) h = ground (arith, h x, count_where-keep p q xs h)

  -- Counting what was kept is counting by both tests.
  pub count_where-keep_and :
      (p q : A → Bool) (xs : List A) → count_where p (keep q xs) ≡ count_where (λ x. p x && q x) xs
  unfolding keep count_where
  count_where-keep_and p q [] = refl
  count_where-keep_and p q (x ∷ xs) = ground (arith, count_where-keep_and p q xs)

  pub keep-All : (q : A → Bool) (xs : List A) → All (λ x. q x ≡ true) xs → keep q xs ≡ xs
  unfolding keep
  keep-All q [] h = refl
  keep-All q (x ∷ xs) h = ground (arith, keep-All q xs h.1)

  pub keep-none : (q : A → Bool) (xs : List A) → count_where q xs ≡ 0 → keep q xs ≡ []
  unfolding keep count_where
  keep-none q [] h = refl
  keep-none q (x ∷ xs) h = ground (arith, keep-none q xs)

  pub count_where_mono :
      (p q : A → Bool) (xs : List A)
      → ((x : A) → p x ≡ true → q x ≡ true)
      → count_where p xs ≤ count_where q xs
  unfolding count_where
  count_where_mono p q [] h = omega arith
  count_where_mono p q (x ∷ xs) h = ground (arith, h x, count_where_mono p q xs h)

  pub count_where-none :
      (p : A → Bool) (xs : List A) → All (λ x. p x ≡ false) xs → count_where p xs ≡ 0
  unfolding count_where
  count_where-none p [] h = refl
  count_where-none p (x ∷ xs) h = ground (arith, count_where-none p xs h.1)

  pub count_where-All :
      (p : A → Bool) (xs : List A) → All (λ x. p x ≡ true) xs → count_where p xs ≡ length xs
  unfolding count_where
  count_where-All p [] h = refl
  count_where-All p (x ∷ xs) h = ground (arith, count_where-All p xs h.1)

  pub All-map {κ μ} :
      {P : A → Type κ} {Q : A → Type μ} (xs : List A) → ((x : A) → P x → Q x) → All P xs → All Q xs
  All-map [] f h = tt
  All-map (x ∷ xs) f h = (f x h.0, All-map xs f h.1)

  pub All-keep {κ} : (P : A → Type κ) (q : A → Bool) (xs : List A) → All P xs → All P (keep q xs)
  unfolding keep
  All-keep P q [] h = tt
  All-keep P q (x ∷ xs) h = ground (arith, All-keep P q xs h.1)

  pub All-keep_self : (q : A → Bool) (xs : List A) → All (λ x. q x ≡ true) (keep q xs)
  unfolding keep
  All-keep_self q [] = tt
  All-keep_self q (x ∷ xs) = elim (Bool-cases (q x)) [
    | inl e ↦ rw (e, keep) (e, All-keep_self q xs)
    | inr e ↦ rw (e, keep) (All-keep_self q xs)
  ]
