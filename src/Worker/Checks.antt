-- ===== src/Worker/Checks.antt =====
-- internal/worker/queue: the closed form of the delay at the third retry.
use stash_it_backend.Base.{◌*◌, ◌^◌, ◌≡◌, ltb, if◌then◌else◌}
use stash_it_backend.Worker.Queue.{
  enrichment_retry_delay, enrichment_retry_base_delay, enrichment_retry_max_delay,
  enrichment_retry_delay_closed,
}

enrichment_retry_delay_closed_example : enrichment_retry_delay 3 ≡ (
    if ltb enrichment_retry_max_delay (enrichment_retry_base_delay * 2 ^ 3)
    then enrichment_retry_max_delay
    else enrichment_retry_base_delay * 2 ^ 3)
enrichment_retry_delay_closed_example = enrichment_retry_delay_closed 3
