-- ===== src/Middleware/Budget.antt =====
-- internal/middleware/ratelimit.go: how many requests of one address reach the handler.
use Prim.Native.Nat.{min}
use stash_it_backend.Base.{
  ℕ, suc, ◌+◌, ◌*◌, ◌/◌, ◌≤◌, ◌<◌, ◌≡◌, ◌⊎◌, inl, inr, Bool-cases, refl, List, [], ◌∷◌, Bool, false,
  Option, none, some, Result, ok, err, if◌then◌else◌, arith, subst, ◌∙◌,
}
use stash_it_backend.Base.Int.{ℤ, pos, to_ℕ}
use stash_it_backend.Base.Text.{Text, text_eq, text_eq_sound, text_eq_refl}
use stash_it_backend.RateLimit.Redis.{Redis}
use stash_it_backend.RateLimit.Reply.{
  Policy, LimitError, Link, delivered, not_run, reply_lost, validate, second,
}
use stash_it_backend.RateLimit.Fixed.{Verdict, allow}
use stash_it_backend.RateLimit.Fixed.Calls.{allow_other}
use stash_it_backend.RateLimit.Fixed.Window.{admitted, allow_within, allow_first}
use stash_it_backend.Middleware.{Passage, refused, next, after_limit, ip_rate_limit, client_key}

-- A request: when it comes, how the call of Redis ends for it, and its address.
pub record Request : Type 0 where
  pub moment : ℕ
  pub link : Link
  pub client : Option Text

abbrev pub passes : Passage → ℕ
passes (refused e) = 0
passes next = 1

-- The requests come in order, and before the end of the window.
abbrev pub Arrive : ℕ → ℕ → List Request → Type 0
Arrive now end [] = Unit {0}
Arrive now end (r ∷ rs) = (now ≤ r.moment) × (r.moment < end) × Arrive r.moment end rs

Arrive-later :
    (rs : List Request) (now end end' : ℕ) → end ≤ end' → Arrive now end rs → Arrive now end' rs
Arrive-later [] now end end' le h = tt
Arrive-later (r ∷ rs) now end end' le h =
    (h.0, omega arith, Arrive-later rs r.moment end end' le h.2)

passes-after_limit : (r : Result LimitError Verdict) → passes (after_limit r) ≡ admitted r
unfolding after_limit
passes-after_limit (err e) = refl
passes-after_limit (ok v) = ground arith

lost_reply :
    (redis : Redis) (now : ℕ) (k : Text) (p : Policy) (s : redis.Store)
    → validate p ≡ none
    → ((allow redis reply_lost now k p s).0 ≡ (allow redis delivered now k p s).0)
      × (admitted (allow redis reply_lost now k p s).1 ≡ 0)
unfolding allow
lost_reply redis now k p s valid = ground arith

lost_call :
    (redis : Redis) (now : ℕ) (k : Text) (p : Policy) (s : redis.Store)
    → validate p ≡ none
    → ((allow redis not_run now k p s).0 ≡ s) × (admitted (allow redis not_run now k p s).1 ≡ 0)
unfolding allow
lost_call redis now k p s valid = ground arith

module _ (redis : Redis) (mac : Text → Text → List ℕ) (secret namespace : Text) (p : Policy) where
  open redis use {Store, view, view_later}

  abbrev pub is_from : Text → Option Text → Bool
  is_from k none = false
  is_from k (some ip) = text_eq (client_key redis mac secret namespace p ip) k

  abbrev pub handled : Text → Request → Passage → ℕ
  handled k r a = if is_from k r.client then passes a else 0

  -- How many of the requests whose address has the key `k` reach the handler.
  pub handled_requests : Text → List Request → Store → ℕ
  handled_requests k [] s = 0
  handled_requests k (r ∷ rs) s =
      let (s', a) = ip_rate_limit redis mac secret namespace p r.link r.moment r.client s in
      handled k r a + handled_requests k rs s'

  -- What a request does to a budget: nothing, or what one call that reached Redis does.
  Spends : Text → Request → Store → Type 0
  Spends k r s =
      let (s', a) = ip_rate_limit redis mac secret namespace p r.link r.moment r.client s in
      let (t, verdict) = allow redis delivered r.moment k p s in
      ((view s' r.moment k ≡ view s r.moment k) × (handled k r a ≡ 0))
      ⊎ ((view s' r.moment k ≡ view t r.moment k) × (handled k r a ≤ admitted verdict))

  own_call :
      (link : Link) (now : ℕ) (ip : Text) (s : Store)
      → validate p ≡ none
      → Spends
          (client_key redis mac secret namespace p ip)
          (record { moment = now; link = link; client = some ip })
          s
  unfolding Spends ip_rate_limit
  own_call delivered now ip s valid = inr (
    refl,
    ground (
      arith,
      text_eq_refl (client_key redis mac secret namespace p ip),
      passes-after_limit
          (allow redis delivered now (client_key redis mac secret namespace p ip) p s).1,
    ),
  )
  own_call not_run now ip s valid =
      let k = client_key redis mac secret namespace p ip in
      let (stays, nothing) = lost_call redis now k p s valid in
      inl (cc, ground (arith, passes-after_limit (allow redis not_run now k p s).1, nothing))
  own_call reply_lost now ip s valid =
      let k = client_key redis mac secret namespace p ip in
      let (counted, nothing) = lost_reply redis now k p s valid in
      inr (cc, ground (arith, passes-after_limit (allow redis reply_lost now k p s).1, nothing))

  ip_rate_limit-Spends :
      (k : Text) (link : Link) (now : ℕ) (client : Option Text) (s : Store)
      → validate p ≡ none
      → Spends k (record { moment = now; link = link; client = client }) s
  unfolding Spends ip_rate_limit
  ip_rate_limit-Spends k link now none s valid = inl (refl, refl)
  ip_rate_limit-Spends k link now (some ip) s valid =
      let j = client_key redis mac secret namespace p ip in
      elim (Bool-cases (text_eq j k)) [
        | inl e ↦
            subst (λ i. Spends i (record { moment = now; link = link; client = some ip }) s)
              (text_eq_sound j k e) (own_call link now ip s valid)
        | inr e ↦ inl (
          allow_other redis link now now j k p s (λ same. ground (arith, text_eq_refl j)),
          ground arith,
        )
      ]

module _ (redis : Redis) (mac : Text → Text → List ℕ) (secret namespace : Text) (m : ℕ)
    (w : ℤ) where
  open redis use {Store, view, view_later}

  abbrev budget : Policy
  budget = record { max = pos m; window = w }

  -- In a window that has counted some calls, only what they left can still be used.
  handled-open :
      (n d now : ℕ) (k : Text) (rs : List Request) (s : Store)
      → validate budget ≡ none
      → Arrive now d rs
      → view s now k ≡ some (record { value = pos (suc n); deadline = some d })
      → handled_requests redis mac secret namespace budget k rs s + min m (suc n) ≤ m
  unfolding handled_requests Spends
  handled-open n d now k [] s valid h e = omega arith
  handled-open n d now k (r ∷ rs) s valid h e =
      elim (ip_rate_limit-Spends redis mac secret namespace budget k r.link r.moment r.client s
        valid) [
          | inl (stays, nothing) ↦
              omega (arith, nothing, handled-open n d r.moment k rs _ valid h.2 (stays ∙ found))
          | inr (counts, most) ↦ omega (
            arith,
            most,
            one,
            handled-open (suc n) d r.moment k rs _ valid h.2
                (counts ∙ (allow_within redis r.moment n d k budget s valid found).0),
          )
        ]
    where
      found : view s r.moment k ≡ some (record { value = pos (suc n); deadline = some d })
      found = ground (arith, view_later s now r.moment k)

      one :
          admitted (allow redis delivered r.moment k budget s).1 + min m (suc n)
          ≡ min m (suc (suc n))
      one = ground (arith, (allow_within redis r.moment n d k budget s valid found).1)

  -- Under a valid policy, from a moment at which the key of an address has no counter, whatever
  -- requests arrive from any addresses, and whichever of their calls of Redis fail: before a
  -- window's length has passed, no more of the requests with this key reach the handler than the
  -- budget allows.
  pub handled-bounded :
      (now : ℕ) (k : Text) (rs : List Request) (s : Store)
      → validate budget ≡ none
      → view s now k ≡ none
      → Arrive now (now + to_ℕ w / second * 1000) rs
      → handled_requests redis mac secret namespace budget k rs s ≤ m
  unfolding handled_requests Spends
  handled-bounded now k [] s valid e h = omega arith
  handled-bounded now k (r ∷ rs) s valid e h =
      elim (ip_rate_limit-Spends redis mac secret namespace budget k r.link r.moment r.client s
        valid) [
          | inl (stays, nothing) ↦ omega (
            arith,
            nothing,
            handled-bounded r.moment k rs _ valid (stays ∙ unused)
                (Arrive-later rs _ _ _ (omega arith) h.2),
          )
          | inr (counts, most) ↦ omega (
            arith,
            most,
            one,
            handled-open 0 _ r.moment k rs _ valid (Arrive-later rs _ _ _ (omega arith) h.2)
                (counts ∙ (allow_first redis r.moment k budget s valid unused).0),
          )
        ]
    where
      unused : view s r.moment k ≡ none
      unused = ground (arith, view_later s now r.moment k)

      one : admitted (allow redis delivered r.moment k budget s).1 ≡ min m 1
      one = ground (arith, (allow_first redis r.moment k budget s valid unused).1)
