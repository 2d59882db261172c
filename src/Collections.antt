-- ===== src/Collections.antt =====
-- internal/api/collection: filing saved items into collections and deleting collections, over the
-- tables of Worker/Organization. `fold` is `lower(btrim(name))` in PostgreSQL.
pub mod Repository
pub mod Service
pub mod Facts
pub mod Kept
pub mod Filing
pub mod Outcomes
mod Checks
use stash_it_backend.Base.{
  ℕ, Bool, false, not, ◌&&◌, ◌∷◌, Option, none, some, ◌==◌, if◌then◌else◌, find, update_where, keep,
  is_some, Result, ok, err,
}
use stash_it_backend.Base.Text.{Text}
use stash_it_backend.Worker.Organization.{
  Collection, SavedItem, Store, key_is, unsorted_key, is_item_of, named,
}

-- `CollectionIntent`.
pub data Intent : Type 0 where
  existing : Intent
  create : Intent

-- `SavedItemsAction`, with the target of a move, which may be the nil id.
pub data Action : Type 0 where
  delete_items : Action
  move_items : ℕ → Action

pub data CollectionError : Type 0 where
  internal : CollectionError
  saved_item_not_found : CollectionError
  collection_name_already_exists : CollectionError
  collection_not_found : CollectionError
  unsorted_collection_protected : CollectionError
  collection_delete_target_not_found : CollectionError
  collection_not_empty : CollectionError
  invalid_collection_name : CollectionError
  invalid_collection_delete_target : CollectionError

abbrev pub Answer : Type 0 → Type 0
Answer A = Result CollectionError (A × Store)

-- `isUnsorted`.
abbrev pub is_unsorted : Collection → Bool
is_unsorted c = key_is unsorted_key c.system_key

abbrev pub is_collection_of : ℕ → ℕ → Collection → Bool
is_collection_of i user c = (c.id == i) && (c.user_id == user)

abbrev pub is_filed_in : ℕ → ℕ → SavedItem → Bool
is_filed_in i user x = (x.collection_id == i) && (x.user_id == user)

-- `LockSavedItemForUser`.
unfoldable pub lock_item : ℕ → ℕ → Store → Answer SavedItem
lock_item i user st = elim (find (is_item_of i user) st.items) [
  | none ↦ err saved_item_not_found
  | some x ↦ ok (x, st)
]

-- `GetCollectionByIDForUser`, and what no row means to its caller.
unfoldable pub get_collection : ℕ → ℕ → CollectionError → Store → Answer Collection
get_collection i user missing st = elim (find (is_collection_of i user) st.collections) [
  | none ↦ err missing
  | some c ↦ ok (c, st)
]

-- `CreateUserCollection`: no row where the name is taken.
unfoldable pub create_user_collection :
    (fold : Text → Text) → ℕ → ℕ → Text → Store → Answer (Option Collection)
create_user_collection fold new user name st =
    let c : Collection = record {
      id = new;
      user_id = user;
      name = name;
      is_system = false;
      system_key = none;
    } in
    if is_some (find (named fold user name) st.collections)
    then ok (none, st)
    else if is_some (find (λ x. x.id == new) st.collections)
    then err internal
    else ok (some c, record st { collections = c ∷ st.collections })

-- `MoveSavedItemToCollection`, with the reference of (collection_id, user_id).
unfoldable pub move_item : ℕ → ℕ → ℕ → Store → Answer SavedItem
move_item collection i user st = elim (find (is_item_of i user) st.items) [
  | none ↦ err internal
  | some x ↦
      if is_some (find (is_collection_of collection user) st.collections)
      then ok (
        record x { collection_id = collection },
        record st {
          items =
              update_where (is_item_of i user) (λ y. record y { collection_id = collection })
                st.items;
        },
      )
      else err internal
]

-- `MoveSavedItemsToCollection`, whose rows need the target.
unfoldable pub move_items_to : ℕ → ℕ → ℕ → Store → Answer (Unit {0})
move_items_to target source user st =
    if is_some (find (is_filed_in source user) st.items)
      && not (is_some (find (is_collection_of target user) st.collections))
    then err collection_delete_target_not_found
    else ok (
      tt,
      record st {
        items =
            update_where (is_filed_in source user) (λ y. record y { collection_id = target })
              st.items;
      },
    )

-- `DeleteSavedItemsInCollection`.
unfoldable pub delete_items_in : ℕ → ℕ → Store → Answer (Unit {0})
delete_items_in source user st =
    ok (tt, record st { items = keep (λ x. not (is_filed_in source user x)) st.items })

-- `DeleteCollectionByIDForUser`, with ON DELETE RESTRICT.
unfoldable pub delete_row : ℕ → ℕ → Store → Answer (Unit {0})
delete_row i user st =
    if not (is_some (find (is_collection_of i user) st.collections))
    then err collection_not_found
    else if is_some (find (is_filed_in i user) st.items)
    then err collection_not_empty
    else ok
        (tt, record st { collections = keep (λ c. not (is_collection_of i user c)) st.collections })
