-- ===== src/Worker/Organization/Repository.antt =====
-- internal/worker/organization/repository.go: the transaction that files one saved item. Other
-- transactions may commit changes to the collections between its statements; the item is locked.
use stash_it_backend.Base.{
  ℕ, Bool, true, false, not, List, Option, none, some, ◌==◌, if◌then◌else◌, Result, ok,
}
use stash_it_backend.Base.Text.{Text, text_eq}
use stash_it_backend.Database.{
  CommitReply, Query, fail, answer, ◌>>=◌, ◌>>◌, execute, commit, transaction,
}
use stash_it_backend.Base.Space.{trim_space}
use stash_it_backend.Worker.Organization.{
  Collection, Store, unsorted_key, normalize_collection_name, platform_text, LockedItem,
  is_in_unsorted, has_platform, is_enrichment_completed, Outcome, moved, collection_created,
  already_organized, not_in_unsorted, no_platform, enrichment_not_completed, lock_saved_item,
  get_collection_by_name, create_system_collection, move_saved_item,
}

pub data OrganizationError : Type 0 where
  internal : OrganizationError
  saved_item_not_found : OrganizationError
  ownership_mismatch : OrganizationError
  name_reserved : OrganizationError

pub data Statement : Type 0 where
  begins : Statement
  locks : Statement
  looks_up : Statement
  creates : Statement
  looks_again : Statement
  moves : Statement

-- What goes wrong, and what others commit: before the lookup, before the creation, and before the
-- second lookup.
pub record Meeting : Type 0 where
  pub fails : Statement → Bool
  pub commit_reply : CommitReply
  pub before_lookup : List Collection → List Collection
  pub before_creation : List Collection → List Collection
  pub before_second : List Collection → List Collection

abbrev pub change_collections : (List Collection → List Collection) → Store → Store
change_collections g st = record st { collections = g st.collections }

-- READ COMMITTED: the next statement sees what others committed, and a rollback does not undo it.
unfoldable pub meanwhile :
    (List Collection → List Collection) → Query Store OrganizationError (Unit {0})
meanwhile g c =
    (ok tt, record { durable = change_collections g c.durable; view = change_collections g c.view })

module _ (d : Meeting) where
  abbrev pub run_statement :
      {A : Type 0} → Statement → (Store → Option (A × Store)) → Query Store OrganizationError A
  run_statement q = execute (d.fails q) internal internal

  -- `finish`, with the outcome.
  unfoldable pub finish : Outcome → Query Store OrganizationError Outcome
  finish o = do commit d.commit_reply internal; answer o

  -- The target is known: move the item, unless it is there already.
  unfoldable pub file :
      ℕ → ℕ → LockedItem → Collection → Bool → Query Store OrganizationError Outcome
  unfolding finish
  file i user l c created = if l.item.collection_id == c.id then finish already_organized else (do
    matched ← run_statement moves (λ st. some (move_saved_item c.id i user st))
    if matched then finish (if created then collection_created else moved) else fail internal)

module _ (lower fold : Text → Text) (d : Meeting) where
  -- `createOrGetCollection`; the flag tells whether it was created.
  unfoldable pub create_or_get_collection :
      ℕ → ℕ → Text → Query Store OrganizationError (Collection × Bool)
  create_or_get_collection new user platform =
      let name = trim_space platform in
      if text_eq (normalize_collection_name lower name)
        (normalize_collection_name lower unsorted_key)
      then fail name_reserved
      else (do
        meanwhile d.before_lookup
        existing ←
            run_statement d looks_up (λ st. some (get_collection_by_name fold user name st, st))
        elim existing [
          | some c ↦ answer (c, false)
          | none ↦ (do
            meanwhile d.before_creation
            made ←
                run_statement d creates (
                  create_system_collection fold new user name
                    (normalize_collection_name lower name))
            elim made [
              | some c ↦ answer (c, true)
              | none ↦ (do
                meanwhile d.before_second
                raced ←
                    run_statement d looks_again
                      (λ st. some (get_collection_by_name fold user name st, st))
                elim raced [ some c ↦ answer (c, false) | none ↦ fail name_reserved ])
            ])
        ])

  -- The decision on the locked item.
  unfoldable pub decide : ℕ → ℕ → ℕ → LockedItem → Query Store OrganizationError Outcome
  unfolding finish file
  decide new i user l =
      if not (l.item.user_id == user)
      then fail ownership_mismatch
      else if not (is_enrichment_completed l)
      then finish d enrichment_not_completed
      else if not (has_platform l)
      then finish d no_platform
      else if not (is_in_unsorted l)
      then finish d not_in_unsorted
      else (do
        target ← create_or_get_collection new user (platform_text l.item.platform)
        file d i user l target.0 target.1)

  -- `OrganizeSavedItem`.
  unfoldable pub organize_saved_item : ℕ → ℕ → ℕ → Store → Result OrganizationError Outcome × Store
  unfolding decide
  organize_saved_item new i user = transaction (d.fails begins) internal (do
    locked ← run_statement d locks (λ st. some (lock_saved_item i st, st))
    elim locked [ none ↦ fail saved_item_not_found | some l ↦ decide new i user l ])
