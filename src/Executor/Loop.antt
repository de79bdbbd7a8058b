-- ===== src/Executor/Loop.antt =====
-- The loop of `_execute_turn_plan_core` and the commands that it submits.
use civ5_agent_macos.Base.{Option, none, some, List}
use civ5_agent_macos.Python.{Value, Runtime}
use civ5_agent_macos.State.{GameState}
use civ5_agent_macos.Plan.{TurnPlan}
use civ5_agent_macos.Plan.Structure.{IsExecutable}
use civ5_agent_macos.Executor.Bridges.{Bridge}
use civ5_agent_macos.Executor.Gate.{IsLive}
use civ5_agent_macos.Executor.Accounts.{IsTameBridge}

module _ (py : Runtime) {W : Type 0} (bridge : Bridge W) (tame : IsTameBridge py bridge)
    {plan : TurnPlan} (h : IsExecutable plan) where
  LiveReading : Option (Value × GameState) → Type 0
  LiveReading none = Unit
  LiveReading (some reading) = IsLive py reading.1
