-- ===== src/Examples/Watching.antt =====
-- The theorems on the watcher at work: a command that is sent twice, and a read-only watcher.
use civ5_agent_macos.Base.{ℕ, ◌+◌, ◌≤◌, ◌≡◌, refl, true, false, Bool, some, List, [], ◌∷◌, String}
use civ5_agent_macos.Python.{null, str, Fields, field, end, Error, Result, ok, err, unavailable}
use civ5_agent_macos.Watch.{Backend, Capture, finished, safe, handled}
use civ5_agent_macos.Watch.Traces.{traced, IsTame, count, handle_all}
use civ5_agent_macos.Watch.AtMostOnce.{handle_all-at_most_once}
use civ5_agent_macos.Watch.ReadOnly.{handle_all-read_only}
use civ5_agent_macos.Examples.{runtime, undecided}

-- a journal whose writes fail
abbrev failing_journal : Capture ℕ
failing_journal = record {
  submitted = λ c turn n. (n, ok tt);
  outcome_unknown = λ c turn m n. (n, err (unavailable "no space"));
  result = λ c r n. (n, err (unavailable "no space"));
}

-- a game that counts its commands
abbrev game : Bool → Backend ℕ
game read_only = record {
  session_id = "11111111-1111-4111-8111-111111111111";
  read_only = read_only;
  read_game_state = λ n. (n, ok undecided);
  safety_check = λ n. (n, safe);
  execute = λ c limit n. (
    n + 1,
    finished (record {
      id = c.id;
      status = str "success";
      message = str "done";
      before = null;
      after = null;
    }),
  );
  audit = λ c r n. (n, ok tt);
  journal = some failing_journal;
}

no_space :
    (r : Result (Unit {0}))
    → r ≡ err (unavailable "no space")
    → (e : Error) → r ≡ err e
    → (m : String) × (handled e ≡ some m)
no_space r h e k = let same : unavailable "no space" ≡ e = cc in ("no space", rw (← same) refl)

game-IsTame : (read_only : Bool) → IsTame (game read_only)
game-IsTame read_only = record {
  execute_tame = λ c limit w e h. cc;
  audit_tame = λ c r w e h. cc;
  unknown_tame = λ j k c turn m w e h.
      let same : failing_journal ≡ j = cc in no_space _ (rw (← same) refl) e h;
  result_tame =
      λ j k c r w e h. let same : failing_journal ≡ j = cc in no_space _ (rw (← same) refl) e h;
}

abbrev research_request : Fields
research_request = field "op" (str "choose_research") (
    field "bridge_session_id" (str "11111111-1111-4111-8111-111111111111") (
      field "id" (str "22222222-2222-4222-8222-222222222222")
        (field "tech_type" (str "TECH_WRITING") end)))

abbrev requests : List (String × Fields)
requests = ("unused", research_request) ∷ ("unused", research_request) ∷ []

handle_all-at_most_once_example :
    count
      (str "22222222-2222-4222-8222-222222222222")
      (handle_all runtime
        (traced (game false))
        requests
        (record { completed_commands = []; uncertain_commands = [] })
        (0, [])).1.1
    ≤ 1
handle_all-at_most_once_example =
    handle_all-at_most_once runtime (game false) (game-IsTame false) requests 0
      "22222222-2222-4222-8222-222222222222"

handle_all-read_only_example :
    ((handle_all runtime
        (traced (game true))
        requests
        (record { completed_commands = []; uncertain_commands = [] })
        (0, [])).0
      ≡ record { completed_commands = []; uncertain_commands = [] })
    × ((handle_all runtime
          (traced (game true))
          requests
          (record { completed_commands = []; uncertain_commands = [] })
          (0, [])).1.1
        ≡ [])
handle_all-read_only_example =
    handle_all-read_only runtime (game true) refl requests
      (record { completed_commands = []; uncertain_commands = [] }) (0, [])
