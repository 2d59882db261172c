-- ===== src/Middleware/Checks.antt =====
-- internal/middleware/ratelimit.go: the middleware at concrete requests, over a store in memory.
use stash_it_backend.Base.{ℕ, ◌≤◌, ◌≡◌, refl, List, [], ◌∷◌, some, none, ◌%◌, arith}
use stash_it_backend.Base.Int.{pos}
use stash_it_backend.Base.Text.{Text, text}
use stash_it_backend.RateLimit.Redis.Memory as Counters
use stash_it_backend.RateLimit.Reply.{Policy, delivered, not_run, reply_lost, validate}
use stash_it_backend.Middleware.{client_key}
use stash_it_backend.Middleware.Budget.{Request, handled_requests, handled-bounded}

-- A digest of one byte.
abbrev short_mac : Text → Text → List ℕ
short_mac key [] = []
short_mac key (c ∷ t) = c % 256 ∷ []

-- One in a minute.
abbrev policy : Policy
policy = record { max = pos 1; window = pos 60000000000 }

policy-valid : validate policy ≡ none
unfolding validate
policy-valid = refl

-- One address three times, its second call without a reply; another address; and no address.
abbrev requests : List Request
requests =
    record { moment = 5; link = delivered; client = some (text "a") }
    ∷ record { moment = 6; link = reply_lost; client = some (text "a") }
    ∷ record { moment = 7; link = delivered; client = some (text "b") }
    ∷ record { moment = 8; link = not_run; client = none }
    ∷ record { moment = 9; link = delivered; client = some (text "a") }
    ∷ []

abbrev key_of_a : Text
key_of_a = client_key Counters.memory short_mac [] (text "ip") policy (text "a")

handled-bounded_example :
    handled_requests Counters.memory short_mac []
      (text "ip")
      policy
      key_of_a
      requests
      Counters.nothing_stored
    ≤ 1
handled-bounded_example =
    handled-bounded Counters.memory short_mac [] (text "ip") 1 (pos 60000000000) 5 key_of_a requests
      Counters.nothing_stored policy-valid refl (omega arith)
