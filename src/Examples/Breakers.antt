-- ===== src/Examples/Breakers.antt =====
-- Examples for Breaker.
use meta_agent.Common.{
  ◌≤◌, ◌≡◌, refl, true, false, [], ◌∷◌, ◌++◌, arith, leb, if◌then◌else◌, length, select, some,
}
use meta_agent.Breaker.{
  Config, Bucket, open_, half_open, fresh, proceed, gate, prune, record_outcome,
}
use meta_agent.Breaker.Window.{recent, record_call-window}
use meta_agent.Breaker.Concurrent.{
  Pool, Step, Reach, idle, one_probe, second_probe, probes_of, is_stamped,
}

-- two failures in ten microseconds, and a cooldown of five milliseconds
abbrev config : Config
config = record { failure_threshold = 2; window = 10; cooldown = 5000 }

abbrev one_failure : Bucket
one_failure = record fresh { failures = 95 ∷ [] }

abbrev opened : Bucket
opened = record fresh { state = open_; opened_at = some 100 }

abbrev probing : Bucket
probing = record opened { state = half_open; probe_in_flight = true }

record_call-window_example :
    let kept = select (recent config 100) (one_failure.failures ++ 100 ∷ []) in
    let b' = record_outcome config one_failure 100 false true false in
    (b'.failures ≡ kept)
    × (b'.state ≡ (if leb config.failure_threshold (length kept) then open_ else one_failure.state))
    × (b'.opened_at
        ≡ (if leb config.failure_threshold (length kept) then some 100 else one_failure.opened_at))
record_call-window_example =
    record_call-window config one_failure 95 100 (omega arith, tt, tt) (omega arith)

admitted : (gate config fresh 3).1 ≡ proceed false
unfolding gate
admitted = refl

abbrev entered : Pool
entered = record idle { bucket = (gate config fresh 3).0; calls = 1 }

one_probe_example :
    (entered.probes ≤ 1)
    × (entered.probes ≡ probes_of entered.bucket.state)
    × (is_stamped entered.bucket.state entered.bucket ≡ true)
one_probe_example = one_probe config entered (Reach.next Reach.here (Step.enter idle 3 admitted))

-- a probe runs, and so does a call from before the breaker opened
abbrev straggling : Pool
straggling = record { bucket = record probing { failures = 94 ∷ [] }; calls = 1; probes = 1 }

full : config.failure_threshold ≤ length (prune config 101 (straggling.bucket.failures ++ 101 ∷ []))
unfolding prune
full = omega arith

second_probe_example : (q : Pool) × Reach config (λ s. Unit {0}) straggling q × (q.probes ≡ 2)
second_probe_example = second_probe config straggling 0 101 refl refl refl full
