-- ===== src/Database.antt =====
-- The transactions of `pgxpool` that the repositories of internal/api run: a view that only the
-- transaction sees, and what its commit makes durable. An early return rolls back.
pub mod Rules
use stash_it_backend.Base.{
  ℕ, ◌==◌, ◌≡◌, Bool, true, false, Option, none, some, Result, ok, err, if◌then◌else◌,
}

-- `reply_lost` is a commit that took place while its caller got an error.
pub data CommitReply : Type 0 where
  committed : CommitReply
  refused : CommitReply
  reply_lost : CommitReply

pub record Connection (S : Type 0) : Type 0 where
  pub durable : S
  pub view : S

-- A transaction's code: it reads and writes the view, and may fail.
abbrev pub Query : Type 0 → Type 0 → Type 0 → Type 0
Query S E A = Connection S → Result E A × Connection S

module _ {S E : Type 0} where
  abbrev pub fail : {A : Type 0} → E → Query S E A
  fail e c = (err e, c)

  abbrev pub answer : {A : Type 0} → A → Query S E A
  answer a c = (ok a, c)

  abbrev pub and_then :
      {A B : Type 0} → Result E A → Connection S → (A → Query S E B) → Result E B × Connection S
  and_then (ok a) c k = k a c
  and_then (err e) c k = (err e, c)

  infixl 5 ◌>>=◌ ◌>>◌
  abbrev pub ◌>>=◌ : {A B : Type 0} → Query S E A → (A → Query S E B) → Query S E B
  ◌>>=◌ m k c = let (r, c') = m c in and_then r c' k

  abbrev pub ◌>>◌ : {A B : Type 0} → Query S E A → Query S E B → Query S E B
  m >> n = m >>= λ _. n

  -- One statement: what it answers and leaves in the view, and the error that stands for `none`.
  -- The database may also refuse it, for a reason of its own.
  unfoldable pub execute : {A : Type 0} → Bool → E → E → (S → Option (A × S)) → Query S E A
  execute fails failure absent f c =
      if fails
      then (err failure, c)
      else elim (f c.view) [ none ↦ (err absent, c) | some (a, s) ↦ (ok a, record c { view = s }) ]

  -- One statement that may be refused for several reasons, each with its own error.
  unfoldable pub attempt : {A : Type 0} → Bool → E → (S → Result E (A × S)) → Query S E A
  attempt fails failure f c =
      if fails
      then (err failure, c)
      else elim (f c.view) [ err e ↦ (err e, c) | ok (a, s) ↦ (ok a, record c { view = s }) ]

  -- One update whose caller wants exactly one changed row.
  unfoldable pub update_one : Bool → E → E → (S → ℕ × S) → Query S E (Unit {0})
  update_one fails failure missed f c =
      if fails
      then (err failure, c)
      else let (n, s) = f c.view in ((if n == 1 then ok tt else err missed), record c { view = s })

  -- READ COMMITTED: the next statement sees what others committed, and a rollback does not undo it.
  unfoldable pub others : (S → S) → Query S E (Unit {0})
  others g c = (ok tt, record { durable = g c.durable; view = g c.view })

  unfoldable pub commit : CommitReply → E → Query S E (Unit {0})
  commit committed e c = (ok tt, record c { durable = c.view })
  commit refused e c = (err e, c)
  commit reply_lost e c = (err e, record c { durable = c.view })

  -- `Begin`, the code, and the deferred `Rollback`, which drops what was not committed.
  unfoldable pub transaction : {A : Type 0} → Bool → E → Query S E A → S → Result E A × S
  transaction fails e m s =
      if fails
      then (err e, s)
      else let (r, c) = m (record { durable = s; view = s }) in (r, c.durable)
