-- ===== src/Collections/Repository.antt =====
-- internal/api/collection/repository.go: `PutSavedItemIntoUserCollection` and `DeleteCollection`.
use stash_it_backend.Base.{ℕ, Bool, true, false, ◌==◌, none, some, if◌then◌else◌, Result, ok}
use stash_it_backend.Base.Text.{Text}
use stash_it_backend.Database.{
  CommitReply, Query, fail, answer, ◌>>=◌, ◌>>◌, attempt, others, commit, transaction,
}
use stash_it_backend.Worker.Organization.{Collection, SavedItem, Store, get_collection_by_name}
use stash_it_backend.Collections.{
  Intent, existing, create, Action, delete_items, move_items, CollectionError, internal,
  collection_name_already_exists, collection_not_found, unsorted_collection_protected,
  collection_delete_target_not_found, Answer, is_unsorted, lock_item, get_collection,
  create_user_collection, move_item, move_items_to, delete_items_in, delete_row,
}

pub data Step : Type 0 where
  begins : Step
  locks_item : Step
  creates : Step
  reads_by_name : Step
  moves : Step
  reads_source : Step
  reads_target : Step
  disposes : Step
  deletes : Step

-- What a call meets: statements that fail, the reply to its commit, and what others commit before
-- each statement.
pub record Meeting : Type 0 where
  pub fails : Step → Bool
  pub commit_reply : CommitReply
  pub before : Step → Store → Store

-- `PutSavedItemIntoUserCollectionResult`.
pub record Filed : Type 0 where
  pub collection : Collection
  pub collection_created : Bool
  pub already_in_collection : Bool
  pub saved_item : SavedItem

module _ (d : Meeting) where
  unfoldable pub run_step : {A : Type 0} → Step → (Store → Answer A) → Query Store CollectionError A
  run_step q f = others (d.before q) >>= λ _. attempt (d.fails q) internal f

  module _ (fold : Text → Text) (user : ℕ) where
    -- `createOrGetUserCollection` and `createNewUserCollection`, after the insert.
    unfoldable pub resolve_taken : Intent → Text → Query Store CollectionError (Collection × Bool)
    resolve_taken create name = fail collection_name_already_exists
    resolve_taken existing name = do
      found ← run_step reads_by_name (λ st. ok (get_collection_by_name fold user name st, st))
      elim found [ none ↦ fail internal | some c ↦ answer (c, false) ]

    unfoldable pub resolve : ℕ → Text → Intent → Query Store CollectionError (Collection × Bool)
    unfolding resolve_taken
    resolve new name intent = do
      created ← run_step creates (create_user_collection fold new user name)
      elim created [ some c ↦ answer (c, true) | none ↦ resolve_taken intent name ]

    -- The item is moved, unless it is there.
    unfoldable pub file_into : SavedItem → Collection × Bool → Query Store CollectionError Filed
    file_into x (c, created) =
        if x.collection_id == c.id
        then (do
          commit d.commit_reply internal
          answer (record {
            collection = c;
            collection_created = created;
            already_in_collection = true;
            saved_item = x;
          }))
        else (do
          y ← run_step moves (move_item c.id x.id user)
          commit d.commit_reply internal
          answer (record {
            collection = c;
            collection_created = created;
            already_in_collection = false;
            saved_item = y;
          }))

    unfoldable pub put_item : ℕ → ℕ → Text → Intent → Store → Result CollectionError Filed × Store
    unfolding resolve file_into
    put_item new i name intent =
        transaction (d.fails begins) internal (do
          x ← run_step locks_item (lock_item i user)
          r ← resolve new name intent
          file_into x r)

  module _ (user i : ℕ) where
    unfoldable pub remove : Query Store CollectionError (Unit {0})
    remove = do run_step deletes (delete_row i user); commit d.commit_reply internal; answer tt

    unfoldable pub dispose : Action → Query Store CollectionError (Unit {0})
    unfolding remove
    dispose delete_items = do run_step disposes (delete_items_in i user); remove
    dispose (move_items target) = do
      run_step reads_target (get_collection target user collection_delete_target_not_found)
      run_step disposes (move_items_to target i user)
      remove

    unfoldable pub delete_collection : Action → Store → Result CollectionError (Unit {0}) × Store
    unfolding dispose
    delete_collection action = transaction (d.fails begins) internal (do
      c ← run_step reads_source (get_collection i user collection_not_found)
      (if is_unsorted c then fail unsorted_collection_protected else dispose action))
