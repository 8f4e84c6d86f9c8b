-- ===== src/Examples/Sweeping.antt =====
-- Examples for Sweeper.
use meta_agent.Common.{ℕ, ◌≡◌, none, []}
use meta_agent.Errors.{ok}
use meta_agent.Format.{decimal}
use meta_agent.Sweeper.{World, run_once}
use meta_agent.Sweeper.Sweeps.{unbound_sweep}
use meta_agent.Examples.Data.{paused_rows}

abbrev world : World
world = record { tasks = paused_rows; audits = [] }

abbrev later : ℕ
later = 86400000002

unbound_sweep_example : run_once 1 100 decimal decimal none later world ≡ (ok 0, world)
unbound_sweep_example = unbound_sweep 1 100 decimal decimal later world
