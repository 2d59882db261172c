-- ===== src/Collections/Service.antt =====
-- internal/api/collection/service.go: the checks of `PutSavedItem` and `DeleteCollection`, and their
-- calls in any order.
use stash_it_backend.Base.{
  ℕ, List, [], ◌∷◌, length, ltb, ◌==◌, Option, none, some, if◌then◌else◌, Result, ok, err,
}
use stash_it_backend.Base.Text.{Text}
use stash_it_backend.Base.Space.{trim_space}
use stash_it_backend.Worker.Organization.{Store}
use stash_it_backend.Collections.{
  Intent, Action, delete_items, move_items, CollectionError, invalid_collection_name,
  invalid_collection_delete_target,
}
use stash_it_backend.Collections.Repository.{Meeting, Filed, put_item, delete_collection}

abbrev pub collection_name_max_length : ℕ
collection_name_max_length = 100

-- `normalizeCollectionName`.
unfoldable pub check_name : Text → Result CollectionError Text
check_name name = elim (trim_space name) [
  | [] ↦ err invalid_collection_name
  | b ∷ bs ↦
      if ltb collection_name_max_length (length (b ∷ bs))
      then err invalid_collection_name
      else ok (b ∷ bs)
]

-- What a request says of the items: an action, and an id or none.
pub data Requested : Type 0 where
  requests_delete : Requested
  requests_move : Requested

unfoldable pub check_action : ℕ → Requested → Option ℕ → Result CollectionError Action
check_action i requests_delete none = ok delete_items
check_action i requests_delete (some t) = err invalid_collection_delete_target
check_action i requests_move none = err invalid_collection_delete_target
check_action i requests_move (some t) =
    if t == i then err invalid_collection_delete_target else ok (move_items t)

module _ (fold : Text → Text) (d : Meeting) where
  -- `PutSavedItem`.
  unfoldable pub put_saved_item :
      ℕ → ℕ → ℕ → Text → Intent → Store → Result CollectionError Filed × Store
  put_saved_item new user i name intent st = elim (check_name name) [
    | err e ↦ (err e, st)
    | ok n ↦ put_item d fold user new i n intent st
  ]

  -- `DeleteCollection`.
  unfoldable pub delete_user_collection :
      ℕ → ℕ → Requested → Option ℕ → Store → Result CollectionError (Unit {0}) × Store
  delete_user_collection user i requested target st = elim (check_action i requested target) [
    | err e ↦ (err e, st)
    | ok a ↦ delete_collection d user i a st
  ]

pub data Call : Type 0 where
  puts : ℕ → ℕ → ℕ → Text → Intent → Call
  removes : ℕ → ℕ → Requested → Option ℕ → Call

unfoldable pub perform_call : (Text → Text) → Meeting × Call → Store → Store
perform_call fold (d, puts new user i name intent) st =
    (put_saved_item fold d new user i name intent st).1
perform_call fold (d, removes user i requested target) st =
    (delete_user_collection fold d user i requested target st).1

unfoldable pub perform_calls : (Text → Text) → List (Meeting × Call) → Store → Store
perform_calls fold [] st = st
perform_calls fold (o ∷ os) st = perform_calls fold os (perform_call fold o st)
