-- ===== src/Worker/Organization.antt =====
-- internal/worker/organization (types.go, queries.sql, repository.go): a saved item is filed into
-- the collection that its platform names. Ids are numbers and strings are lists of code points.
-- `lower` is `strings.ToLower` and `fold` is `lower(btrim(name))` in PostgreSQL.
pub mod Repository
pub mod Effects
pub mod Handler
pub mod Answers
pub mod Checks
use stash_it_backend.Base.{
  ℕ, ◌+◌, ◌≡◌, Bool, true, false, not, ◌&&◌, ◌||◌, List, [], ◌∷◌, ◌++◌, Option, none, some, ltb,
  leb, ◌==◌, if◌then◌else◌, find, update_where, is_some,
}
use stash_it_backend.Base.Space.{trim_space}
use stash_it_backend.Base.Text.{Text, text, text_eq}

pub record Collection : Type 0 where
  pub id : ℕ
  pub user_id : ℕ
  pub name : Text
  pub is_system : Bool
  pub system_key : Option Text

-- The columns of `saved_items` that organization reads.
pub record SavedItem : Type 0 where
  pub id : ℕ
  pub user_id : ℕ
  pub enrichment_status : Text
  pub platform : Option Text
  pub collection_id : ℕ

pub record Store : Type 0 where
  pub items : List SavedItem
  pub collections : List Collection

abbrev pub unsorted_key : Text
unsorted_key = text "unsorted"

unfoldable pub normalize_collection_name : (Text → Text) → Text → Text
normalize_collection_name lower name = lower (trim_space name)

abbrev pub key_is : Text → Option Text → Bool
key_is k none = false
key_is k (some k') = text_eq k' k

abbrev pub has_text : Option Text → Bool
has_text none = false
has_text (some []) = false
has_text (some (c ∷ s)) = true

abbrev pub platform_text : Option Text → Text
platform_text none = []
platform_text (some s) = s

-- The row of `LockSavedItemForOrganization`: the item and its collection's key.
pub record LockedItem : Type 0 where
  pub item : SavedItem
  pub collection_system_key : Option Text

-- `IsInUnsorted`, `HasPlatform` and `IsEnrichmentCompleted`.
unfoldable pub is_in_unsorted : LockedItem → Bool
is_in_unsorted l = key_is unsorted_key l.collection_system_key

unfoldable pub has_platform : LockedItem → Bool
has_platform l = has_text l.item.platform

unfoldable pub is_enrichment_completed : LockedItem → Bool
is_enrichment_completed l = text_eq l.item.enrichment_status (text "completed")

pub data Outcome : Type 0 where
  moved : Outcome
  collection_created : Outcome
  already_organized : Outcome
  not_in_unsorted : Outcome
  no_platform : Outcome
  enrichment_not_completed : Outcome

unfoldable pub did_move : Outcome → Bool
did_move moved = true
did_move collection_created = true
did_move already_organized = false
did_move not_in_unsorted = false
did_move no_platform = false
did_move enrichment_not_completed = false

-- `LockSavedItemForOrganization`.
unfoldable pub lock_saved_item : ℕ → Store → Option LockedItem
lock_saved_item i st = elim (find (λ x. x.id == i) st.items) [
  | none ↦ none
  | some x ↦
      elim (find (λ c. (c.id == x.collection_id) && (c.user_id == x.user_id)) st.collections) [
        | none ↦ none
        | some c ↦ some (record { item = x; collection_system_key = c.system_key })
      ]
]

module _ (fold : Text → Text) where
  abbrev pub named : ℕ → Text → Collection → Bool
  named user name c = (c.user_id == user) && text_eq (fold c.name) (fold name)

  -- `GetCollectionByNameForOrganization`.
  unfoldable pub get_collection_by_name : ℕ → Text → Store → Option Collection
  get_collection_by_name user name st = find (named user name) st.collections

  -- `CreateSystemCollectionForOrganization`: no row where the name is taken, an error where the id
  -- or the key is.
  unfoldable pub create_system_collection :
      ℕ → ℕ → Text → Text → Store → Option (Option Collection × Store)
  create_system_collection new user name key st =
      let c : Collection = record {
        id = new;
        user_id = user;
        name = name;
        is_system = true;
        system_key = some key;
      } in
      if is_some (find (named user name) st.collections)
      then some (none, st)
      else if is_some (
          find (λ x. (x.id == new) || ((x.user_id == user) && key_is key x.system_key))
            st.collections)
      then none
      else some (some c, record st { collections = c ∷ st.collections })

abbrev pub is_item_of : ℕ → ℕ → SavedItem → Bool
is_item_of i user x = (x.id == i) && (x.user_id == user)

-- `MoveSavedItemToCollectionForOrganization`, and whether a row matched.
unfoldable pub move_saved_item : ℕ → ℕ → ℕ → Store → Bool × Store
move_saved_item collection i user st = (
  is_some (find (is_item_of i user) st.items),
  record st {
    items =
        update_where (is_item_of i user) (λ x. record x { collection_id = collection }) st.items;
  },
)
