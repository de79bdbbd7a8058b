-- ===== src/Validation.antt =====
-- validation.py of civ5_agent: `validate_live_state` in the order of its checks.
mod Checks
pub mod Scalars
pub mod Units
pub mod Records
pub mod Research
pub mod Context
pub mod Facts
pub mod Unchanged
pub mod Raises
pub mod Ids
unfoldable pub use Checks.*
use Scalars.{validate_scalars}
use Records.{validate_cities, validate_units, validate_diplomacy, validate_victory, validate_lists}
use Research.{validate_research}
use Facts.{validate_research_runtime_facts}
use Context.{validate_runtime_context}
use civ5_agent_macos.Base.{if◌then◌else◌}
use civ5_agent_macos.Python.{Runtime, Result, ok, ◌>>=◌, ◌>>◌}
use civ5_agent_macos.State.{GameState}

module _ (py : Runtime) where
  unfoldable pub validate_live_state : GameState → Result GameState
  validate_live_state s = do
    validate_scalars py s
    validate_lists py s
    validate_cities py s
    validate_units py s
    validate_diplomacy py s
    validate_victory s
    validate_research s
    (if schema_from 8 s
        then (do validate_research_runtime_facts s; validate_runtime_context s.runtime_context)
        else ok tt)
    ok s
