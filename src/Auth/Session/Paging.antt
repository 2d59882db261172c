-- ===== src/Auth/Session/Paging.antt =====
-- internal/api/auth/session/service.go: the pages of `ListSessions`.
use native.Mathlib.Nat.{div-add-mod', mod-lt, le-div_iff_mul-le}
use stash_it_backend.Base.{
  ℕ, zero, suc, ◌+◌, ◌-◌, ◌*◌, ◌/◌, ◌%◌, ◌^◌, ◌<◌, ◌≤◌, ◌≡◌, refl, ap, ◌∙◌, false, List, [], ◌∷◌,
  ok, ltb, lt→ltb, if◌then◌else◌, length, get_elem?, arith,
}
use stash_it_backend.Base.Int.{ℤ, pos, negsuc}
use stash_it_backend.Auth.Session.{Store}
use stash_it_backend.Auth.Session.Repository.{Faults, selects, counts, take}
use stash_it_backend.Auth.Session.Service.{
  clamp_page, clamp_limit, int32, live_sessions, drop, select_page, SessionsPage, list_sessions,
  session_list_max_limit,
}

get_elem?-take {ℓ} :
    {A : Type ℓ} (n i : ℕ) (xs : List A) → i < n → get_elem? (take n xs) i ≡ get_elem? xs i
unfolding take
get_elem?-take zero i xs h = ground arith
get_elem?-take (suc n) i [] h = refl
get_elem?-take (suc n) zero (x ∷ xs) h = refl
get_elem?-take (suc n) (suc i) (x ∷ xs) h = get_elem?-take n i xs (omega arith)

get_elem?-drop {ℓ} :
    {A : Type ℓ} (n i : ℕ) (xs : List A) → get_elem? (drop n xs) i ≡ get_elem? xs (n + i)
unfolding drop
get_elem?-drop zero i xs = ap (get_elem? xs) (omega arith)
get_elem?-drop (suc n) i [] = refl
get_elem?-drop (suc n) i (x ∷ xs) =
    let e : suc (n + i) ≡ suc n + i = omega arith in
    get_elem?-drop n i xs ∙ ap (get_elem? (x ∷ xs)) e

clamp_limit_range : (l : ℤ) → (1 ≤ clamp_limit l) × (clamp_limit l ≤ session_list_max_limit)
unfolding clamp_limit
clamp_limit_range (pos zero) = (ground arith, ground arith)
clamp_limit_range (pos (suc n)) = (ground arith, ground arith)
clamp_limit_range (negsuc n) = (ground arith, ground arith)

int32_small : (n : ℕ) → n < 2 ^ 31 → int32 n ≡ pos n
unfolding int32
int32_small n h = ground arith

int32_wraps : (n k : ℕ) → int32 (n + 2 ^ 32 * k) ≡ int32 n
unfolding int32
int32_wraps n k = ground arith

clamp_page_suc : (n : ℕ) → clamp_page (pos (n + 1)) ≡ n + 1
unfolding clamp_page
clamp_page_suc n = ground arith

-- The page that is shown where the offset fits.
shown : ℕ → ℕ → ℕ → ℕ → Store → SessionsPage
shown user page offset limit st = record {
  sessions = take limit (drop offset (live_sessions user st));
  page = page;
  limit = limit;
  total = length (live_sessions user st);
  total_pages =
      if ltb 0 (length (live_sessions user st))
      then (length (live_sessions user st) + limit - 1) / limit
      else 0;
}

list_sessions-shown :
    (d : Faults) (user : ℕ) (p l : ℤ) (st : Store) (offset : ℕ)
    → d.fails selects ≡ false
    → d.fails counts ≡ false
    → int32 ((clamp_page p - 1) * clamp_limit l) ≡ pos offset
    → list_sessions d user p l st ≡ ok (shown user (clamp_page p) offset (clamp_limit l) st)
unfolding list_sessions select_page shown
list_sessions-shown d user p l st offset hs hc e = rw (hs, e, hc) refl

offset_small :
    (n limit : ℕ)
    → n * limit < 2 ^ 31
    → int32 ((clamp_page (pos (n + 1)) - 1) * limit) ≡ pos (n * limit)
offset_small n limit h =
    let e : clamp_page (pos (n + 1)) - 1 ≡ n = omega (arith, clamp_page_suc n) in
    ap (λ x. int32 (x * limit)) e ∙ int32_small (n * limit) h

far_offset : (n k limit : ℕ) → (n + 2 ^ 32 * k + 1 - 1) * limit ≡ n * limit + 2 ^ 32 * (k * limit)
far_offset n k limit =
    let e : n + 2 ^ 32 * k + 1 - 1 ≡ n + 2 ^ 32 * k = omega arith in
    ap (λ x. x * limit) e ∙ omega arith

-- The number of pages reaches the page of every rank.
pages-ge :
    (i limit total : ℕ)
    → 1 ≤ limit
    → i < total
    → i / limit + 1 ≤ (if ltb 0 total then (total + limit - 1) / limit else 0)
pages-ge i limit total h hi =
    rw (lt→ltb 0 total (omega arith))
      ((le-div_iff_mul-le (omega arith)).1 (omega (arith, div-add-mod' i limit)))

-- A session of rank `i` among the user's live sessions, most recent first, is shown on the page
-- `i / limit + 1`, at the place `i % limit`, and the number of pages that is told covers that page,
-- for every page whose offset fits an `int32`.
pub list_sessions-rank :
    (d : Faults) (user : ℕ) (l : ℤ) (st : Store) (i : ℕ)
    → d.fails selects ≡ false
    → d.fails counts ≡ false
    → i < length (live_sessions user st)
    → i < 2 ^ 31
    → (r : SessionsPage) × (list_sessions d user (pos (i / clamp_limit l + 1)) l st ≡ ok r)
      × (get_elem? r.sessions (i % clamp_limit l) ≡ get_elem? (live_sessions user st) i)
      × (r.page ≤ r.total_pages)
unfolding shown
list_sessions-rank d user l st i hs hc hi hb =
    let limit = clamp_limit l in
    let low = (clamp_limit_range l).0 in
    let parts = div-add-mod' i limit in
    let offset = i / limit * limit in
    (
      shown user (clamp_page (pos (i / limit + 1))) offset limit st,
      list_sessions-shown d user _ l st offset hs hc (offset_small (i / limit) limit (omega arith)),
      get_elem?-take limit _ _ (mod-lt i (omega arith))
          ∙ get_elem?-drop offset _ _
          ∙ ap (get_elem? (live_sessions user st)) parts,
      rw (clamp_page_suc (i / limit)) (pages-ge i limit _ low hi),
    )

-- Two pages 2 ^ 32 apart show the same sessions and differ only in their number, if the offset of
-- the first fits an `int32`: the offset of the second wraps around, so that a page far past the
-- last one is answered with sessions in place of an empty list.
pub list_sessions-wraps :
    (d : Faults) (user : ℕ) (l : ℤ) (st : Store) (n k : ℕ)
    → d.fails selects ≡ false
    → d.fails counts ≡ false
    → n * clamp_limit l < 2 ^ 31
    → (r : SessionsPage) × (list_sessions d user (pos (n + 1)) l st ≡ ok r)
      × (list_sessions d user (pos (n + 2 ^ 32 * k + 1)) l st
          ≡ ok (record r { page = n + 2 ^ 32 * k + 1 }))
unfolding shown
list_sessions-wraps d user l st n k hs hc h =
    let far = n + 2 ^ 32 * k in
    let limit = clamp_limit l in
    (
      shown user (clamp_page (pos (n + 1))) (n * limit) limit st,
      list_sessions-shown d user _ l st (n * limit) hs hc (offset_small n limit h),
      list_sessions-shown d user _ l st (n * limit) hs hc (
            ap (λ x. int32 ((x - 1) * limit)) (clamp_page_suc far)
            ∙ ap int32 (far_offset n k limit)
            ∙ int32_wraps (n * limit) (k * limit)
            ∙ int32_small (n * limit) h)
          ∙ ap (λ x. ok (shown user x (n * limit) limit st)) (clamp_page_suc far),
    )
