-- ===== src/Auth/Registration/Soundness/Proofs.antt =====
-- internal/api/auth/registration/queries.sql: what the rows that a caller knows have to do with the
-- rows that a statement changed.
use stash_it_backend.Base.{
  ℕ, ◌≡◌, true, Unique, Unique-agree, find-pass, find-of_is_some, find-of_count, find-updated,
  arith,
}
use stash_it_backend.Auth.Registration.{Store}
use stash_it_backend.Auth.Registration.Statements.{
  is_consumable, is_open_request, mark_request_verified, is_reassignable, reassign_request,
  consume_verification_code,
}
use stash_it_backend.Auth.Registration.Soundness.Facts.{
  has_code, has_consumed, is_consumed, is_proof, is_proven, has_request,
}

-- A code that a caller knows is the one that was consumed, so its request has a used code.
pub consume_verification_code-consumed :
    (s : Store) (now i request : ℕ)
    → Unique (λ c. c.id) s.codes
    → has_code i request s ≡ true
    → (consume_verification_code now i s).0 ≡ 1
    → has_consumed (consume_verification_code now i s).1.codes request ≡ true
unfolding consume_verification_code
consume_verification_code-consumed s now i request u known one =
    let (x, hx) = find-of_is_some _ s.codes known in
    let (y, hy) =
      find-of_is_some (is_consumable now i) s.codes
        (find-of_count (is_consumable now i) s.codes (omega (arith, one))) in
    let known_x = find-pass _ s.codes x hx in
    let due_y = find-pass (is_consumable now i) s.codes y hy in
    let same : y ≡ x =
      Unique-agree (λ c. c.id) _ (is_consumable now i) s.codes x y u hx hy (ground arith) in
    find-updated (is_consumed request) (is_consumable now i) _ s.codes y hy (rw same (ground arith))

-- A request that a caller knows is the one that a mark changed, so its registration is proven.
pub mark_request_verified-proven :
    (s : Store) (i subject : ℕ)
    → Unique (λ q. q.id) s.requests
    → has_request i subject s ≡ true
    → (mark_request_verified i s).0 ≡ 1
    → is_proven (mark_request_verified i s).1.requests subject ≡ true
unfolding mark_request_verified
mark_request_verified-proven s i subject u known one =
    let (x, hx) = find-of_is_some _ s.requests known in
    let (y, hy) =
      find-of_is_some (is_open_request i) s.requests
        (find-of_count (is_open_request i) s.requests (omega (arith, one))) in
    let known_x = find-pass _ s.requests x hx in
    let marked_y = find-pass (is_open_request i) s.requests y hy in
    let same : y ≡ x =
      Unique-agree (λ q. q.id) _ (is_open_request i) s.requests x y u hx hy (ground arith) in
    find-updated (is_proof subject) (is_open_request i) _ s.requests y hy (rw same (ground arith))

pub reassign_request-proven :
    (s : Store) (i subject : ℕ)
    → (reassign_request i subject s).0 ≡ 1
    → is_proven (reassign_request i subject s).1.requests subject ≡ true
unfolding reassign_request
reassign_request-proven s i subject one =
    let (y, hy) =
      find-of_is_some (is_reassignable i) s.requests
        (find-of_count (is_reassignable i) s.requests (omega (arith, one))) in
    let marked_y = find-pass (is_reassignable i) s.requests y hy in
    find-updated (is_proof subject) (is_reassignable i) _ s.requests y hy (ground arith)
