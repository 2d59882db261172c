-- ===== src/Middleware.antt =====
-- internal/middleware/ratelimit.go: the budget of requests from one address, over the fixed-window
-- limiter.
pub mod Budget
pub mod Checks
use stash_it_backend.Base.{
  ℕ, List, [], ◌∷◌, Bool, true, false, Option, none, some, Result, ok, err, if◌then◌else◌,
}
use stash_it_backend.Base.Text.{Text}
use stash_it_backend.RateLimit.Redis.{Redis}
use stash_it_backend.RateLimit.Reply.{Policy, LimitError, Link}
use stash_it_backend.RateLimit.Key.{derive_key, key_prefix}
use stash_it_backend.RateLimit.Fixed.{Verdict, allow}

-- The errors of the middleware by their codes; a refusal for a spent budget carries the wait.
pub data IpRefusal : Type 0 where
  client_ip_unavailable : IpRefusal
  ip_rate_limit_unavailable : IpRefusal
  ip_rate_limit_exceeded : ℕ → IpRefusal

-- Either an error, or `c.Next()`, which runs the handler.
pub data Passage : Type 0 where
  refused : IpRefusal → Passage
  next : Passage

unfoldable pub after_limit : Result LimitError Verdict → Passage
after_limit (err e) = refused ip_rate_limit_unavailable
after_limit (ok v) = if v.allowed then next else refused (ip_rate_limit_exceeded v.wait)

-- HMAC-SHA256 is the parameter `mac`.
module _ (redis : Redis) (mac : Text → Text → List ℕ) (secret namespace : Text) (p : Policy) where
  open redis use {Store}

  abbrev pub client_key : Text → Text
  client_key ip = derive_key mac key_prefix namespace secret ip

  -- The handler of `IPRateLimit`. The address is what `NormalizeIP` makes of the peer's, if it is
  -- one.
  unfoldable pub ip_rate_limit : Link → ℕ → Option Text → Store → Store × Passage
  ip_rate_limit link now none s = (s, refused client_ip_unavailable)
  ip_rate_limit link now (some ip) s =
      let (s', r) = allow redis link now (client_key ip) p s in (s', after_limit r)
