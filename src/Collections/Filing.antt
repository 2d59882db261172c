-- ===== src/Collections/Filing.antt =====
-- internal/api/collection: the calls of the service in any order, with what others commit.
use stash_it_backend.Base.{ℕ, List, [], ◌∷◌, All, Option, inl, inr, Result-cases}
use stash_it_backend.Base.Text.{Text}
use stash_it_backend.Worker.Organization.{Store}
use stash_it_backend.Collections.{Intent}
use stash_it_backend.Collections.Repository.{Meeting}
use stash_it_backend.Collections.Service.{
  Call, puts, removes, Requested, check_name, check_action, put_saved_item, delete_user_collection,
  perform_call, perform_calls,
}
use stash_it_backend.Collections.Facts.{IsSound, Follows, Follows_refl, Follows_trans}
use stash_it_backend.Collections.Kept.{HasTrusted, put_item-Follows, delete_collection-Follows}

module _ (fold : Text → Text) where
  module _ (d : Meeting) (t : HasTrusted fold d) (st : Store) (sound : IsSound fold st) where
    put_saved_item-Follows :
        (new user i : ℕ) (name : Text) (intent : Intent)
        → Follows fold st (put_saved_item fold d new user i name intent st).1
    unfolding put_saved_item
    put_saved_item-Follows new user i name intent = elim (Result-cases (check_name name)) [
      | inl (n, e) ↦ rw (e, put_saved_item) (put_item-Follows fold d t st user new i n intent sound)
      | inr (x, e) ↦ rw (e, put_saved_item) (Follows_refl fold st sound)
    ]

    delete_user_collection-Follows :
        (user i : ℕ) (requested : Requested) (target : Option ℕ)
        → Follows fold st (delete_user_collection fold d user i requested target st).1
    unfolding delete_user_collection
    delete_user_collection-Follows user i requested target =
        elim (Result-cases (check_action i requested target)) [
          | inl (a, e) ↦
              rw (e, delete_user_collection) (delete_collection-Follows fold d t st user i a sound)
          | inr (x, e) ↦ rw (e, delete_user_collection) (Follows_refl fold st sound)
        ]

  perform_call-Follows :
      (o : Meeting × Call) (st : Store)
      → HasTrusted fold o.0
      → IsSound fold st
      → Follows fold st (perform_call fold o st)
  unfolding perform_call
  perform_call-Follows (d, puts new user i name intent) st t sound =
      put_saved_item-Follows d t st sound new user i name intent
  perform_call-Follows (d, removes user i requested target) st t sound =
      delete_user_collection-Follows d t st sound user i requested target

  -- Whatever items are filed and whatever collections are deleted, in whatever order, with whatever
  -- faults, and whatever others commit meanwhile that does the same: every saved item is filed in a
  -- collection of its own user, no user has two collections of one name, and no user loses his
  -- Unsorted collection.
  pub perform_calls-Follows :
      (os : List (Meeting × Call)) (st : Store)
      → All (λ o. HasTrusted fold o.0) os
      → IsSound fold st
      → Follows fold st (perform_calls fold os st)
  unfolding perform_calls
  perform_calls-Follows [] st t sound = Follows_refl fold st sound
  perform_calls-Follows (o ∷ os) st t sound =
      let v = perform_call-Follows o st t.0 sound in
      Follows_trans fold st _ _ v (perform_calls-Follows os _ t.1 v.0)
