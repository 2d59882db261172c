-- ===== src/Collections/Outcomes.antt =====
-- internal/api/collection/repository.go: what each transaction leaves behind when no other one
-- interferes.
use stash_it_backend.Base.{
  ℕ, ◌≡◌, ◌⊎◌, refl, sym, subst, arith, Bool, true, false, not, ◌&&◌, ◌∷◌, List, inl, inr, Result,
  ok, err, find, keep, update_where, is_some, if◌then◌else◌,
}
use stash_it_backend.Base.Text.{Text}
use stash_it_backend.Database.{Connection, Query, others, attempt, reply_lost, ◌>>=◌}
use stash_it_backend.Database.Rules.{attempt-bind, commit_reply-bind, if-rule, transaction-rule}
use stash_it_backend.Worker.Organization.{Collection, SavedItem, Store, is_item_of, named}
use stash_it_backend.Collections.{
  Intent, existing, create, Action, delete_items, move_items, CollectionError, internal, Answer,
  is_unsorted, is_collection_of, is_filed_in, get_collection, move_items_to, delete_items_in,
  delete_row,
}
use stash_it_backend.Collections.Repository.{
  Meeting, Step, Filed, run_step, remove, dispose, delete_collection,
}

-- A change happens as a whole or not at all.
abbrev pub IsWhole :
    {A : Type 0}
    → Meeting
    → Store
    → (A → Store → Type 0)
    → Result CollectionError A × Store
    → Type 0
IsWhole {A} d st Done x =
    ((a : A) × ((x.0 ≡ ok a) × Done a x.1))
    ⊎ (((e : CollectionError) × (x.0 ≡ err e))
        × ((x.1 ≡ st) ⊎ ((d.commit_reply ≡ reply_lost) × ((a : A) × Done a x.1))))

module _ (d : Meeting) (alone : (q : Step) (s : Store) → d.before q s ≡ s) (st : Store) where
  abbrev Ends :
      {A : Type 0} → (A → Store → Type 0) → Result CollectionError A × Connection Store → Type 0
  Ends Done x = IsWhole d st Done (x.0, x.1.durable)

  run_step-bind :
      {A B : Type 0} (P : Result CollectionError B × Connection Store → Type 0) (q : Step)
      (f : Store → Answer A) (k : A → Query Store CollectionError B) (c : Connection Store)
      → ((e : CollectionError) → P (err e, c))
      → ((a : A) (s : Store) → f c.view ≡ ok (a, s) → P (k a (record c { view = s })))
      → P ((run_step d q f >>= k) c)
  unfolding run_step others
  run_step-bind P q f k c failed next =
      subst (λ c'. P ((attempt (d.fails q) internal f >>= k) c'))
        (λ j. record { durable = sym (alone q c.durable) j; view = sym (alone q c.view) j })
        (attempt-bind P (d.fails q) internal f k c failed next)

  unchanged :
      {A : Type 0} (Done : A → Store → Type 0) (e : CollectionError) → IsWhole d st Done (err e, st)
  unchanged Done e = inr ((e, refl), inl refl)

  module _ (user i : ℕ) where
    -- The items of the collection after the action.
    abbrev pub disposed : Action → List SavedItem
    disposed delete_items = keep (λ x. not (is_filed_in i user x)) st.items
    disposed (move_items target) =
        update_where (is_filed_in i user) (λ x. record x { collection_id = target }) st.items

    -- The collection is gone, its items are where the action put them, and all else is as it was.
    abbrev pub IsDeleted : Action → Unit {0} → Store → Type 0
    IsDeleted a _ s = s ≡ record {
      items = disposed a;
      collections = keep (λ c. not (is_collection_of i user c)) st.collections;
    }

    remove-IsWhole :
        (a : Action) (view : Store)
        → view ≡ record st { items = disposed a }
        → Ends (IsDeleted a) (remove d user i (record { durable = st; view = view }))
    unfolding remove delete_row
    remove-IsWhole a view same =
        run_step-bind (Ends (IsDeleted a)) _ _ _ _ (λ e. unchanged (IsDeleted a) e)
          (λ x s e.
            let gone : IsDeleted a tt s = ground arith in
            commit_reply-bind (Ends (IsDeleted a)) _ _ _ _ (λ _. unchanged (IsDeleted a) _)
              (λ lost. inr ((_, refl), inr (lost, (tt, gone)))) (λ _. inl (tt, (refl, gone))))

    dispose-IsWhole :
        (a : Action) (view : Store)
        → view ≡ st
        → Ends (IsDeleted a) (dispose d user i a (record { durable = st; view = view }))
    unfolding dispose get_collection move_items_to delete_items_in
    dispose-IsWhole delete_items view same =
        run_step-bind (Ends (IsDeleted delete_items)) _ _ _ _
          (λ e. unchanged (IsDeleted delete_items) e)
          (λ x s e. remove-IsWhole delete_items s (ground arith))
    dispose-IsWhole (move_items target) view same =
        let Done = IsDeleted (move_items target) in
        run_step-bind (Ends Done) _ _ _ _ (λ e. unchanged Done e)
          (λ x s e.
            let same' : s ≡ st = ground arith in
            run_step-bind (Ends Done) _ _ _ _ (λ e. unchanged Done e)
              (λ x' s' e'. remove-IsWhole (move_items target) s' (ground arith)))

    -- Deleting a collection happens as a whole or not at all: on success the collection is gone, its
    -- items are deleted or stand in the target, as was asked, and no other row changed; an error
    -- leaves the tables as they were, or changed by all of that if only the reply to the commit was
    -- lost. This is for a call that no other transaction interferes with.
    pub delete_collection-IsWhole :
        (a : Action) → IsWhole d st (IsDeleted a) (delete_collection d user i a st)
    unfolding delete_collection get_collection
    delete_collection-IsWhole a =
        transaction-rule (IsWhole d st (IsDeleted a)) _ _ _ st (λ _. unchanged (IsDeleted a) _)
          (λ _.
            run_step-bind (Ends (IsDeleted a)) _ _ _ _ (λ e. unchanged (IsDeleted a) e)
              (λ x s e.
                let same : s ≡ st = ground arith in
                if-rule (Ends (IsDeleted a)) (is_unsorted x) _ _ _ (λ _. unchanged (IsDeleted a) _)
                  (λ _. dispose-IsWhole a s same)))

  module _ (fold : Text → Text) (user i : ℕ) (name : Text) (intent : Intent) where
    abbrev is_create : Intent → Bool
    is_create create = true
    is_create existing = false

    -- The answered collection has the name, and was created exactly when no collection of the user
    -- had it, and for a request to create one always; the item stands in it, and no other row
    -- changed.
    abbrev pub IsFiled : Filed → Store → Type 0
    IsFiled r s =
        (named fold user name r.collection ≡ true)
        × (r.collection_created ≡ not (is_some (find (named fold user name) st.collections)))
        × ((is_create intent && not r.collection_created) ≡ false)
        × (r.saved_item.collection_id ≡ r.collection.id)
        × (s.items ≡ (
            if r.already_in_collection
            then st.items
            else update_where (is_item_of i user)
                (λ x. record x { collection_id = r.collection.id }) st.items))
        × (s.collections
            ≡ (if r.collection_created then r.collection ∷ st.collections else st.collections))

    -- What the destination is, when it was found.
    abbrev IsResolved : Collection × Bool → Store → Type 0
    IsResolved r s =
        (named fold user name r.0 ≡ true)
        × (r.1 ≡ not (is_some (find (named fold user name) st.collections)))
        × ((is_create intent && not r.1) ≡ false)
        × (s.items ≡ st.items)
        × (s.collections ≡ (if r.1 then r.0 ∷ st.collections else st.collections))

    abbrev After : Result CollectionError (Collection × Bool) × Connection Store → Type 0
    After x = (x.1.durable ≡ st) × ((r : Collection × Bool) → x.0 ≡ ok r → IsResolved r x.1.view)

    failed :
        (e : CollectionError) (view : Store) → After (err e, record { durable = st; view = view })
    failed e view = (refl, (λ r h. cc))
