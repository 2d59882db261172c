-- ===== src/Collections/Checks.antt =====
-- internal/api/collection: a user with two collections and one item.
use stash_it_backend.Base.{
  ℕ, subst, map, keep, update_where, ◌≡◌, ◌≤◌, refl, arith, true, false, List, [], ◌∷◌, none, some,
  find, count_where, Bool-cases, inl, inr,
}
use stash_it_backend.Base.Text.{Text, text, text_eq, text_eq_sound}
use stash_it_backend.Base.Space.{trim_space, trim_left, trim_right, is_space}
use stash_it_backend.Database.{committed, transaction, others, attempt, commit}
use stash_it_backend.Worker.Organization.{Collection, SavedItem, Store, unsorted_key}
use stash_it_backend.Collections.{
  create, move_items, lock_item, create_user_collection, move_item, get_collection, move_items_to,
  delete_row,
}
use stash_it_backend.Collections.Repository.{
  Meeting, run_step, resolve, file_into, dispose, remove, put_item, delete_collection,
}
use stash_it_backend.Collections.Service.{
  Call, puts, removes, requests_move, check_name, check_action, put_saved_item,
  delete_user_collection, perform_call, perform_calls,
}
use stash_it_backend.Collections.Facts.{IsSound, Follows, Follows_refl, is_named}
use stash_it_backend.Collections.Kept.{HasTrusted}
use stash_it_backend.Collections.Filing.{perform_calls-Follows}
use stash_it_backend.Collections.Outcomes.{IsWhole, IsDeleted, delete_collection-IsWhole}

abbrev unsorted : Collection
unsorted = record {
  id = 1;
  user_id = 5;
  name = text "Unsorted";
  is_system = true;
  system_key = some unsorted_key;
}

abbrev recipes : Collection
recipes = record {
  id = 2;
  user_id = 5;
  name = text "Recipes";
  is_system = false;
  system_key = none;
}

abbrev soup : SavedItem
soup = record {
  id = 10;
  user_id = 5;
  enrichment_status = text "completed";
  platform = none;
  collection_id = 2;
}

abbrev store : Store
store = record { items = soup ∷ []; collections = unsorted ∷ recipes ∷ [] }

abbrev fold : Text → Text
fold t = t

store-names :
    (user : ℕ) (folded : Text) → count_where (is_named fold user folded) store.collections ≤ 1
unfolding count_where text_eq
store-names user folded = elim (Bool-cases (text_eq (text "Recipes") folded)) [
  | inl same ↦
      subst (λ f. count_where (is_named fold user f) store.collections ≤ 1)
        (text_eq_sound (text "Recipes") folded same) (ground arith)
  | inr apart ↦ ground (arith, apart)
]

store-IsSound : IsSound fold store
unfolding find
store-IsSound = record {
  item_ids = (tt, tt);
  collection_ids = ((refl, tt), (tt, tt));
  filed = (refl, tt);
  names = store-names;
}

abbrev meeting : Meeting
meeting = record { fails = λ q. false; commit_reply = committed; before = λ q s. s }

alone : HasTrusted fold meeting
alone q s sound = Follows_refl fold s sound

-- The item goes to a new collection, which is then deleted in favour of Unsorted.
abbrev calls : List (Meeting × Call)
calls =
    (meeting, puts 3 5 10 (text "Soups") create)
    ∷ (meeting, removes 5 3 requests_move (some 1))
    ∷ []

perform_calls-Follows_example : Follows fold store (perform_calls fold calls store)
perform_calls-Follows_example =
    perform_calls-Follows fold calls store (alone, (alone, tt)) store-IsSound

-- These calls move it twice.
calls-items :
    map (λ (x : SavedItem). x.collection_id) (perform_calls fold calls store).items ≡ 1 ∷ []
unfolding perform_calls perform_call put_saved_item check_name put_item run_step others attempt
    lock_item resolve create_user_collection file_into move_item commit transaction
    delete_user_collection check_action delete_collection get_collection dispose remove
    move_items_to delete_row find keep update_where text_eq trim_space trim_left trim_right is_space
calls-items = refl

delete_collection-IsWhole_example :
    IsWhole meeting store
      (IsDeleted meeting (λ q s. refl) store 5 2 (move_items 1))
      (delete_collection meeting 5 2 (move_items 1) store)
delete_collection-IsWhole_example =
    delete_collection-IsWhole meeting (λ q s. refl) store 5 2 (move_items 1)
