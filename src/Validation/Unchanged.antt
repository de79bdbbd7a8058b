-- ===== src/Validation/Unchanged.antt =====
-- What `validate_live_state` of validation.py returns.
use civ5_agent_macos.Base.{◌≡◌, arith}
use civ5_agent_macos.Python.{Runtime, ok}
use civ5_agent_macos.State.{GameState}
use civ5_agent_macos.Validation.{validate_live_state}

pub validate_live_state-eq :
    (py : Runtime) (s t : GameState) → validate_live_state py s ≡ ok t → t ≡ s
unfolding validate_live_state
validate_live_state-eq py s t h = ground arith
