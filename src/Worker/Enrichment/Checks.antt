-- ===== src/Worker/Enrichment/Checks.antt =====
-- internal/worker/enrichment: the theorems at one saved item.
use stash_it_backend.Base.{
  ◌≡◌, refl, ◌⊎◌, false, [], ◌∷◌, map, none, some, ◌==◌, Result, ok, err, find,
}
use stash_it_backend.Base.Text.{Text, text}
use stash_it_backend.Worker.Enrichment.{
  PageError, plain, wrap_failure, new_failure, failure_content, kind_of, Metadata, pending, failed,
  SavedItemRow, answered, Meeting, accepts, enrich_saved_item, record_outcome, get_saved_item,
  update_row, complete_saved_item_enrichment, fail_saved_item_enrichment, schedule_organization,
  has_platform, handle_enrichment, archived, task_end, is_permanent,
}
use stash_it_backend.Worker.Enrichment.Effects.{frame, others}
use stash_it_backend.Worker.Enrichment.Tasks.{
  IsOrganizable, enrich_saved_item-others, enrich_saved_item-queued, handle_enrichment-archived,
}

abbrev unknown : Metadata
unknown = record { title = none; platform = none; description = none; image_url = none }

abbrev video : Metadata
video = record unknown { title = some (text "A video"); platform = some (text "YouTube") }

abbrev item : SavedItemRow
item = record {
  id = 5;
  user_id = 7;
  url = text "https://example.org/v";
  collection_id = 1;
  metadata = unknown;
  enrichment_status = pending;
  last_enriched_at = none;
}

abbrev calm : Meeting
calm = record {
  load = answered;
  write = answered;
  deleted_meanwhile = false;
  organizer = accepts;
  now = 100;
}

abbrev good_page : Text → Result PageError Metadata
good_page url = ok video

abbrev image_page : Text → Result PageError Metadata
image_page url =
    err (wrap_failure failure_content (plain (text "response is not an html document")))

queued : (enrich_saved_item calm good_page 5 (item ∷ [])).2 ≡ some (5, 7)
unfolding enrich_saved_item record_outcome get_saved_item update_row complete_saved_item_enrichment
    schedule_organization has_platform find
queued = refl

enrich_saved_item-queued_example :
    (y : SavedItemRow) × (find (λ x. x.id == 5) (enrich_saved_item calm good_page 5 (item ∷ [])).1
      ≡ some y)
    × IsOrganizable 5 7 y
enrich_saved_item-queued_example = enrich_saved_item-queued calm good_page 5 (item ∷ []) 5 7 queued

enrich_saved_item-others_example :
    (others 5 (enrich_saved_item calm good_page 5 (item ∷ [])).1 ≡ others 5 (item ∷ []))
    × ((map frame (enrich_saved_item calm good_page 5 (item ∷ [])).1 ≡ map frame (item ∷ []))
        ⊎ (map frame (enrich_saved_item calm good_page 5 (item ∷ [])).1
            ≡ map frame (others 5 (item ∷ []))))
enrich_saved_item-others_example = enrich_saved_item-others calm good_page 5 (item ∷ [])

given_up : (handle_enrichment calm image_page 5 (item ∷ [])).0 ≡ archived
unfolding handle_enrichment enrich_saved_item record_outcome get_saved_item update_row
    fail_saved_item_enrichment find task_end is_permanent kind_of wrap_failure new_failure
given_up = refl

handle_enrichment-archived_example :
    (y : SavedItemRow) × (find (λ x. x.id == 5) (handle_enrichment calm image_page 5 (item ∷ [])).1
      ≡ some y)
    × (y.enrichment_status ≡ failed)
handle_enrichment-archived_example =
    handle_enrichment-archived calm image_page 5 (item ∷ []) refl given_up
