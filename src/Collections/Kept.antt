-- ===== src/Collections/Kept.antt =====
-- internal/api/collection/repository.go: both transactions, against the invariant.
use stash_it_backend.Base.{
  ℕ, ◌≡◌, sym, subst, arith, Bool, true, false, Option, none, some, inl, inr, Result, ok, err,
  Result-cases, Bool-cases, find, find-pass, find-of_is_some, Unique-agree, ◌==◌, ◌&&◌,
}
use stash_it_backend.Base.Text.{Text}
use stash_it_backend.Database.{Connection, Query, answer, fail, others, attempt, ◌>>=◌}
use stash_it_backend.Database.Rules.{commit-bind, bind-rule, if-rule, transaction-rule}
use stash_it_backend.Worker.Organization.{Collection, SavedItem, Store, get_collection_by_name}
use stash_it_backend.Collections.{
  Intent, existing, create, Action, delete_items, move_items, CollectionError, internal, Answer,
  is_unsorted, is_collection_of, get_collection,
}
use stash_it_backend.Collections.Repository.{
  Meeting, Step, run_step, resolve_taken, resolve, file_into, put_item, remove, dispose,
  delete_collection,
}
use stash_it_backend.Collections.Facts.{
  IsSound, Follows, Follows_refl, Follows_trans, is_plain, lock_item-Follows,
  get_collection-Follows, create_user_collection-Follows, move_item-Follows, move_items_to-Follows,
  delete_items_in-Follows, delete_row-Follows,
}

-- Others keep the invariant, and take no Unsorted collection away.
abbrev pub HasTrusted : (Text → Text) → Meeting → Type 0
HasTrusted fold d = (q : Step) (s : Store) → IsSound fold s → Follows fold s (d.before q s)

module _ (fold : Text → Text) (d : Meeting) (t : HasTrusted fold d) (st : Store) where
  -- What holds of a connection: both states are later than the first, and a fact of the ids lasts.
  abbrev Holds : (Store → Type 0) → Connection Store → Type 0
  Holds F c = Follows fold st c.durable × (Follows fold st c.view × F c.view)

  abbrev Lasts : (Store → Type 0) → Type 0
  Lasts F = (s u : Store) → Follows fold s u → F s → F u

  run_step-bind :
      {A B : Type 0} (P : Result CollectionError B × Connection Store → Type 0) (F : Store → Type 0)
      → Lasts F
      → ((e : CollectionError) (c' : Connection Store) → Holds F c' → P (err e, c'))
      → (q : Step) (f : Store → Answer A) (k : A → Query Store CollectionError B)
        (c : Connection Store)
      → Holds F c
      → ((a : A) (s u : Store) → IsSound fold s → F s → f s ≡ ok (a, u) → Follows fold s u)
      → ((a : A) (s : Store) (c' : Connection Store)
          → f s ≡ ok (a, c'.view)
          → Holds F c'
          → P (k a c'))
      → P ((run_step d q f >>= k) c)
  unfolding run_step others attempt
  run_step-bind P F lasts failed q f k c h keeps next =
      let durable' = Follows_trans fold st _ _ h.0 (t q c.durable h.0.0) in
      let step = t q c.view h.1.0.0 in
      let view' = Follows_trans fold st _ _ h.1.0 step in
      let fact = lasts _ _ step h.1.1 in
      elim (Bool-cases (d.fails q)) [
        | inl e ↦ rw e (failed _ _ (durable', (view', fact)))
        | inr e ↦ elim (Result-cases (f (d.before q c.view))) [
          | inr (x, g) ↦ rw (e, g) (failed _ _ (durable', (view', fact)))
          | inl (x, g) ↦
              let after = keeps x.0 _ x.1 view'.0 fact g in
              rw (e, g)
                (next x.0 _ _ g
                  (durable', (Follows_trans fold st _ _ view' after, lasts _ _ after fact)))
        ]
      ]

  abbrev Always : Store → Type 0
  Always s = Unit

  abbrev Always-Lasts : Lasts Always
  Always-Lasts s u v h = tt

  abbrev Ends : {A : Type 0} → Result CollectionError A × Connection Store → Type 0
  Ends x = Follows fold st x.1.durable

  abbrev HoldsAfter : {A : Type 0} → Result CollectionError A × Connection Store → Type 0
  HoldsAfter x = Holds Always x.1

  read_keeps :
      {A : Type 0} (g : Store → A) (a : A) (s u : Store)
      → IsSound fold s
      → Always s
      → (let r : Answer A = ok (g s, s) in r) ≡ ok (a, u)
      → Follows fold s u
  read_keeps g a s u v _ e =
      let same : u ≡ s = cc in subst (Follows fold s) (sym same) (Follows_refl fold s v)

  module _ (user : ℕ) where
    resolve-Holds :
        (new : ℕ) (name : Text) (intent : Intent) (c : Connection Store)
        → Holds Always c
        → HoldsAfter (resolve d fold user new name intent c)
    unfolding resolve resolve_taken
    resolve-Holds new name intent c h =
        run_step-bind HoldsAfter Always Always-Lasts (λ e c' h'. h') _ _ _ c h
          (λ a s u v _ e. create_user_collection-Follows fold s v new user name a u e)
          (λ a s c' e h'. by_answer intent a c' h')
      where
        by_row :
            (a : Option Collection) (c' : Connection Store)
            → Holds Always c'
            → HoldsAfter (
                (elim a as (λ _. Query Store CollectionError (Collection × Bool)) [
                  | none ↦ fail internal
                  | some x ↦ answer (x, false)
                ])
                  c')
        by_row none c' h' = h'
        by_row (some x) c' h' = h'

        by_answer :
            (intent : Intent) (a : Option Collection) (c' : Connection Store)
            → Holds Always c'
            → HoldsAfter (
                (elim a as (λ _. Query Store CollectionError (Collection × Bool)) [
                  | some x ↦ answer (x, true)
                  | none ↦ resolve_taken d fold user intent name
                ])
                  c')
        by_answer intent (some x) c' h' = h'
        by_answer create none c' h' = h'
        by_answer existing none c' h' =
            run_step-bind HoldsAfter Always Always-Lasts (λ e c'' h''. h'') _ _ _ c' h'
              (λ a s u v _ e. read_keeps (get_collection_by_name fold user name) a s u v tt e)
              (λ a s c'' e h''. by_row a c'' h'')

    file_into-Follows :
        (x : SavedItem) (r : Collection × Bool) (c : Connection Store)
        → Holds Always c
        → Ends (file_into d fold user x r c)
    unfolding file_into
    file_into-Follows x (r, created) c h =
        if-rule Ends (x.collection_id == r.id) _ _ c (λ _. commit-bind Ends _ _ _ c h.0 h.1.0 h.1.0)
          (λ _.
            run_step-bind Ends Always Always-Lasts (λ e c' h'. h'.0) _ _ _ c h
              (λ a s u v _ e. move_item-Follows fold s v r.id x.id user a u e)
              (λ a s c' e h'. commit-bind Ends _ _ _ c' h'.0 h'.1.0 h'.1.0))

    pub put_item-Follows :
        (new i : ℕ) (name : Text) (intent : Intent)
        → IsSound fold st
        → Follows fold st (put_item d fold user new i name intent st).1
    unfolding put_item
    put_item-Follows new i name intent sound =
        let start = Follows_refl fold st sound in
        transaction-rule (λ x. Follows fold st x.1) _ _ _ st (λ _. start)
          (λ _.
            run_step-bind Ends Always Always-Lasts (λ e c' h'. h'.0) _ _ _ _ (start, (start, tt))
              (λ a s u v _ e. lock_item-Follows fold s v i user a u e)
              (λ x s c' e h'.
                let r = resolve-Holds new name intent c' h' in
                bind-rule Ends (resolve d fold user new name intent) (file_into d fold user x) c'
                  (λ e g. r.0) (λ a g. file_into-Follows x a _ r)))

  module _ (user i : ℕ) where
    abbrev Plain : Store → Type 0
    Plain s = is_plain i s ≡ true

    Plain-Lasts : Lasts Plain
    Plain-Lasts s u v h = v.2 i h

    -- The row that the call read names no Unsorted collection.
    get_collection-Plain :
        (m : CollectionError) (s u : Store) (c : Collection)
        → IsSound fold u
        → get_collection i user m s ≡ ok (c, u)
        → is_unsorted c ≡ false
        → Plain u
    unfolding get_collection
    get_collection-Plain m s u c v e plain = elim (Bool-cases (is_plain i u)) [
      | inl k ↦ k
      | inr k ↦
          let unchanged : u ≡ s = ground arith in
          let found_s : find (is_collection_of i user) s.collections ≡ some c = ground arith in
          let found : find (is_collection_of i user) u.collections ≡ some c =
            subst (λ (x : Store). find (is_collection_of i user) x.collections ≡ some c)
              (sym unchanged) found_s in
          let (y, hy) =
            find-of_is_some (λ c. (c.id == i) && is_unsorted c) u.collections (ground arith) in
          let is_y = find-pass (λ c. (c.id == i) && is_unsorted c) u.collections y hy in
          let is_c = find-pass (is_collection_of i user) u.collections c found in
          let same : y ≡ c =
            Unique-agree (λ c. c.id) _ _ u.collections c y v.collection_ids found hy
              (ground arith) in
          let off : is_unsorted y ≡ false = rw same plain in absurd (both off (ground arith))
    ]
      where
        both : {b : Bool} → b ≡ false → b ≡ true → ⊥
        both f t = cc

    remove-Follows : (c : Connection Store) → Holds Plain c → Ends (remove d user i c)
    unfolding remove
    remove-Follows c h =
        run_step-bind Ends Plain Plain-Lasts (λ e c' h'. h'.0) _ _ _ c h
          (λ a s u v p e. delete_row-Follows fold s v i user a u p e)
          (λ a s c' e h'. commit-bind Ends _ _ _ c' h'.0 h'.1.0 h'.1.0)

    dispose-Follows :
        (a : Action) (c : Connection Store) → Holds Plain c → Ends (dispose d user i a c)
    unfolding dispose
    dispose-Follows delete_items c h =
        run_step-bind Ends Plain Plain-Lasts (λ e c' h'. h'.0) _ _ _ c h
          (λ a s u v p e. delete_items_in-Follows fold s v i user a u e)
          (λ a s c' e h'. remove-Follows c' h')
    dispose-Follows (move_items target) c h =
        run_step-bind Ends Plain Plain-Lasts (λ e c' h'. h'.0) _ _ _ c h
          (λ a s u v p e. get_collection-Follows fold s v target user _ a u e)
          (λ a s c' e h'.
            run_step-bind Ends Plain Plain-Lasts (λ e c' h'. h'.0) _ _ _ c' h'
              (λ a s u v p e. move_items_to-Follows fold s v target i user a u e)
              (λ a s c'' e h''. remove-Follows c'' h''))

    pub delete_collection-Follows :
        (a : Action) → IsSound fold st → Follows fold st (delete_collection d user i a st).1
    unfolding delete_collection
    delete_collection-Follows a sound =
        let start = Follows_refl fold st sound in
        transaction-rule (λ x. Follows fold st x.1) _ _ _ st (λ _. start)
          (λ _.
            run_step-bind Ends Always Always-Lasts (λ e c' h'. h'.0) _ _ _ _ (start, (start, tt))
              (λ x s u v _ e. get_collection-Follows fold s v i user _ x u e)
              (λ x s c' e h'.
                if-rule Ends (is_unsorted x) _ _ c' (λ _. h'.0)
                  (λ plain.
                    dispose-Follows a c'
                      (h'.0, (h'.1.0, get_collection-Plain _ s c'.view x h'.1.0.0 e plain)))))
