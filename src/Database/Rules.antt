-- ===== src/Database/Rules.antt =====
-- Proof rules for the code of a transaction, one for each thing it does: a property of what the
-- whole code ends with is shown for each way a statement can end.
use stash_it_backend.Base.{
  ℕ, ◌==◌, ==_iff, Bool-cases, ◌≡◌, refl, inl, inr, Bool, true, false, Option, none, some,
  Option-cases, Result, ok, Result-cases, err, if◌then◌else◌,
}
use stash_it_backend.Database.{
  CommitReply, committed, refused, reply_lost, Connection, Query, ◌>>=◌, execute, attempt,
  update_one, others, commit, transaction,
}

module _ {S E A B : Type 0} (P : Result E B × Connection S → Type 0) where
  pub execute-bind :
      (b : Bool) (e e' : E) (f : S → Option (A × S)) (k : A → Query S E B) (c : Connection S)
      → (b ≡ true → P (err e, c))
      → (b ≡ false → f c.view ≡ none → P (err e', c))
      → ((a : A) (s : S) → b ≡ false → f c.view ≡ some (a, s) → P (k a (record c { view = s })))
      → P ((execute b e e' f >>= k) c)
  unfolding execute
  execute-bind true e e' f k c hf hn hs = hf refl
  execute-bind false e e' f k c hf hn hs = elim (Option-cases (f c.view)) [
    | inl q ↦ rw q (hn refl q)
    | inr (x, q) ↦ rw q (hs x.0 x.1 refl q)
  ]

module _ {S E A B : Type 0} (P : Result E B × Connection S → Type 0) where
  pub attempt-bind :
      (b : Bool) (e : E) (f : S → Result E (A × S)) (k : A → Query S E B) (c : Connection S)
      → ((e' : E) → P (err e', c))
      → ((a : A) (s : S) → f c.view ≡ ok (a, s) → P (k a (record c { view = s })))
      → P ((attempt b e f >>= k) c)
  unfolding attempt
  attempt-bind true e f k c hf hs = hf e
  attempt-bind false e f k c hf hs = elim (Result-cases (f c.view)) [
    | inl (x, q) ↦ rw q (hs x.0 x.1 q)
    | inr (e', q) ↦ rw q (hf e')
  ]

  -- A statement that reads.
  pub read-bind :
      (b : Bool) (e e' : E) (g : S → A) (k : A → Query S E B) (c : Connection S)
      → P (err e, c)
      → P (k (g c.view) c)
      → P ((execute b e e' (λ s. some (g s, s)) >>= k) c)
  unfolding execute
  read-bind true e e' g k c hf hs = hf
  read-bind false e e' g k c hf hs = hs

  -- A part of the code, by what it ends with.
  pub bind-rule :
      (m : Query S E A) (k : A → Query S E B) (c : Connection S)
      → ((e : E) → (m c).0 ≡ err e → P (err e, (m c).1))
      → ((a : A) → (m c).0 ≡ ok a → P (k a (m c).1))
      → P ((m >>= k) c)
  bind-rule m k c he ha = elim (Result-cases (m c).0) [
    | inl (a, q) ↦ rw q (ha a q)
    | inr (e, q) ↦ rw q (he e q)
  ]

module _ {S E B : Type 0} (P : Result E B × Connection S → Type 0) where
  pub commit-bind :
      (r : CommitReply) (e : E) (k : Unit {0} → Query S E B) (c : Connection S)
      → P (err e, c)
      → P (err e, record c { durable = c.view })
      → P (k tt (record c { durable = c.view }))
      → P ((commit r e >>= k) c)
  unfolding commit
  commit-bind committed e k c hr hl hc = hc
  commit-bind refused e k c hr hl hc = hr
  commit-bind reply_lost e k c hr hl hc = hl

  -- The same, with the reply known.
  pub commit_reply-bind :
      (r : CommitReply) (e : E) (k : Unit {0} → Query S E B) (c : Connection S)
      → (r ≡ refused → P (err e, c))
      → (r ≡ reply_lost → P (err e, record c { durable = c.view }))
      → (r ≡ committed → P (k tt (record c { durable = c.view })))
      → P ((commit r e >>= k) c)
  unfolding commit
  commit_reply-bind committed e k c hr hl hc = hc refl
  commit_reply-bind refused e k c hr hl hc = hr refl
  commit_reply-bind reply_lost e k c hr hl hc = hl refl

  -- A statement that always answers.
  pub write-bind :
      (b : Bool) (e e' : E) (g : S → S) (k : Unit {0} → Query S E B) (c : Connection S)
      → P (err e, c)
      → P (k tt (record c { view = g c.view }))
      → P ((execute b e e' (λ s. some (tt, g s)) >>= k) c)
  unfolding execute
  write-bind true e e' g k c hf hs = hf
  write-bind false e e' g k c hf hs = hs

  pub update_one-bind :
      (b : Bool) (e e' : E) (f : S → ℕ × S) (k : Unit {0} → Query S E B) (c : Connection S)
      → P (err e, c)
      → P (err e', record c { view = (f c.view).1 })
      → ((f c.view).0 ≡ 1 → P (k tt (record c { view = (f c.view).1 })))
      → P ((update_one b e e' f >>= k) c)
  unfolding update_one
  update_one-bind true e e' f k c hf hm hs = hf
  update_one-bind false e e' f k c hf hm hs = elim (Bool-cases ((f c.view).0 == 1)) [
    | inl q ↦ rw q (hs ((==_iff _ _).0 q))
    | inr q ↦ rw q hm
  ]

  pub others-bind :
      (g : S → S) (k : Unit {0} → Query S E B) (c : Connection S)
      → P (k tt (record { durable = g c.durable; view = g c.view }))
      → P ((others g >>= k) c)
  unfolding others
  others-bind g k c h = h

  pub option-rule :
      {A : Type 0} (o : Option A) (m : A → Query S E B) (n : Query S E B) (c : Connection S)
      → ((a : A) → o ≡ some a → P (m a c))
      → (o ≡ none → P (n c))
      → P ((elim o as (λ _. Query S E B) [ some a ↦ m a | none ↦ n ]) c)
  option-rule none m n c hs hn = hn refl
  option-rule (some a) m n c hs hn = hs a refl

  pub if-rule :
      (b : Bool) (m n : Query S E B) (c : Connection S)
      → (b ≡ true → P (m c))
      → (b ≡ false → P (n c))
      → P ((if b then m else n) c)
  if-rule true m n c ht hf = ht refl
  if-rule false m n c ht hf = hf refl

module _ {S E B : Type 0} (Q : Result E B × S → Type 0) where
  pub transaction-rule :
      (b : Bool) (e : E) (m : Query S E B) (s : S)
      → (b ≡ true → Q (err e, s))
      → (b ≡ false
          → Q (
            (m (record { durable = s; view = s })).0,
            (m (record { durable = s; view = s })).1.durable,
          ))
      → Q (transaction b e m s)
  unfolding transaction
  transaction-rule true e m s ht hf = ht refl
  transaction-rule false e m s ht hf = hf refl
