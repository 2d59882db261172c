-- ===== src/Worker/Organization/Checks.antt =====
-- internal/worker/organization: the theorems at one user with an Unsorted collection.
use stash_it_backend.Base.{
  ℕ, ◌+◌, ◌≡◌, refl, ap, true, false, ◌&&◌, [], ◌∷◌, map, some, leb, if◌then◌else◌, ok, find,
  update_where,
}
use stash_it_backend.Base.Text.{Text, text, text_eq}
use stash_it_backend.Database.{committed, reply_lost, execute, commit, transaction}
use stash_it_backend.Base.Space.{trim_space, trim_left, trim_right, is_space}
use stash_it_backend.Worker.Organization.{
  Collection, SavedItem, Store, unsorted_key, LockedItem, is_in_unsorted, has_platform,
  is_enrichment_completed, collection_created, lock_saved_item, get_collection_by_name,
  create_system_collection, move_saved_item, normalize_collection_name,
}
use stash_it_backend.Worker.Organization.Repository.{
  Meeting, meanwhile, create_or_get_collection, finish, file, decide, organize_saved_item,
}
use stash_it_backend.Worker.Organization.Handler.{
  readable, archived, retried, handle, task_result, is_integrity_failure,
}
use stash_it_backend.Worker.Organization.Effects.{Effect, organize_saved_item-Effect}
use stash_it_backend.Worker.Organization.Answers.{
  Reason, organize_saved_item-Reason, handle-archived,
}

-- The letters of ASCII.
abbrev lower_rune : ℕ → ℕ
lower_rune c = if leb 65 c && leb c 90 then c + 32 else c

abbrev lower : Text → Text
lower = map lower_rune

abbrev calm : Meeting
calm = record {
  fails = λ _. false;
  commit_reply = committed;
  before_lookup = λ cs. cs;
  before_creation = λ cs. cs;
  before_second = λ cs. cs;
}

abbrev unsorted : Collection
unsorted = record {
  id = 1;
  user_id = 7;
  name = text "Unsorted";
  is_system = true;
  system_key = some unsorted_key;
}

abbrev video : SavedItem
video = record {
  id = 5;
  user_id = 7;
  enrichment_status = text "completed";
  platform = some (text " YouTube");
  collection_id = 1;
}

abbrev store : Store
store = record { items = video ∷ []; collections = unsorted ∷ [] }

abbrev youtube : Collection
youtube = record {
  id = 2;
  user_id = 7;
  name = text "YouTube";
  is_system = true;
  system_key = some (text "youtube");
}

organized : organize_saved_item lower lower calm 2 5 7 store ≡ (
  ok collection_created,
  record { items = record video { collection_id = 2 } ∷ []; collections = youtube ∷ unsorted ∷ [] },
)
unfolding organize_saved_item decide create_or_get_collection file finish meanwhile execute commit
    transaction lock_saved_item get_collection_by_name create_system_collection move_saved_item find
    update_where is_in_unsorted has_platform is_enrichment_completed trim_space trim_left trim_right
    is_space normalize_collection_name text_eq
organized = refl

organize_saved_item-Effect_example :
    Effect 5 7 store (organize_saved_item lower lower calm 2 5 7 store)
organize_saved_item-Effect_example = organize_saved_item-Effect lower lower calm 2 5 7 store

answered : (organize_saved_item lower lower calm 2 5 7 store).0 ≡ ok collection_created
answered = ap (λ x. x.0) organized

organize_saved_item-Reason_example :
    (l : LockedItem) × (lock_saved_item 5 store ≡ some l) × Reason collection_created l
organize_saved_item-Reason_example =
    organize_saved_item-Reason 5 store lower lower calm 2 7 collection_created answered

-- A task for another user's item.
handled : (handle lower lower calm 2 (readable 5 8) store).0 ≡ archived
unfolding handle task_result is_integrity_failure organize_saved_item decide execute transaction
    lock_saved_item find
handled = refl

handle-archived_example : (handle lower lower calm 2 (readable 5 8) store).1.items ≡ store.items
handle-archived_example = handle-archived lower lower calm 2 (readable 5 8) store handled

-- The reply of the commit is lost.
abbrev lost : Meeting
lost = record calm { commit_reply = reply_lost }

again : (handle lower lower lost 2 (readable 5 7) store).0 ≡ retried
unfolding handle task_result is_integrity_failure organize_saved_item decide
    create_or_get_collection file finish meanwhile execute commit transaction lock_saved_item
    get_collection_by_name create_system_collection move_saved_item find update_where is_in_unsorted
    has_platform is_enrichment_completed trim_space trim_left trim_right is_space
    normalize_collection_name text_eq
again = refl
