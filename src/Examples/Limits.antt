-- ===== src/Examples/Limits.antt =====
-- Examples for RateLimit: one token a second, at most two at once.
use meta_agent.Common.{◌+◌, ◌-◌, ◌*◌, ◌/◌, ◌≤◌, List, [], ◌∷◌, arith}
use meta_agent.Dict.{Dict, get}
use meta_agent.RateLimit.{Limiter, Bucket}
use meta_agent.RateLimit.Bound.{Request, grants, credit, grants-le}

abbrev limiter : Limiter
limiter = record { unit = 1000000; rate = 1; burst = 2; ceil_ms = λ deficit. deficit / 1000 }

abbrev low : Dict Bucket
low = ("alice", record { tokens = 500000; last_refill = 1000 }) ∷ []

abbrev requests : List Request
requests =
    record { key = "alice"; cost = 1; now = 1000 }
    ∷ record { key = "bob"; cost = 2; now = 2000 }
    ∷ record { key = "alice"; cost = 1; now = 900000 }
    ∷ []

grants-le_example :
    grants limiter "alice" low requests * limiter.unit
    ≤ credit limiter "alice" (get low "alice") 1000 + (1000000 - 1000) * limiter.rate
grants-le_example =
    grants-le limiter "alice" low requests 1000 1000000
      (omega arith, (omega arith, (omega arith, omega arith)))
