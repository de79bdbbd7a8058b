-- ===== src/Lib.antt =====
-- A model of civ5-agent, the agent that plays Civilization V through a local bridge. A plan of bounded
-- actions is made for one observed state, checked, executed action by action against freshly read states,
-- reported, and after a lost answer reconciled (turn_plan.py, turn_executor.py). Each action is a command
-- that the watcher (watch.py) runs at most once, by one of the functions of command.py, which wait until
-- the game shows its effect; what happens is appended to a journal of chained records (journal/). The
-- theorems are about what the executor submits, what its reports say, what plans, states and requirements
-- it accepts, what the watcher executes and answers, what a command's success means, and what an append
-- to the journal leaves on the disk.
--
-- The parts and their files, with the paths of the repository:
-- - src/civ5_agent/models.py (GameState, Command, CommandResult, game_state_to_dict, model_to_dict): State,
--   Command, Executor/Steps, Plan/Encoding.
-- - src/civ5_agent/identity.py (the validate_..._id functions): Identity, over is_uuid4 of Base/Text.
-- - src/civ5_agent/actions.py (validate_command): Command.
-- - src/civ5_agent/validation.py (validate_live_state): Validation, with a child for each group of its
--   checks: Scalars, Records (cities, units, diplomacy, victory), Units (move targets, worker state),
--   Research, Facts and Context (schema 8); Validation/Unchanged,
--   Validation/Raises and Validation/Ids are about its outcome.
-- - src/civ5_agent/turn_plan.py: Plan (plans, live_state_digest, validate_turn_plan,
--   validate_turn_plan_structure, make_turn_plan, turn_plan_from_dict) and Plan/Report (reports, events and
--   their validation); Plan/Structure, Plan/Fresh and Plan/Encoding hold the theorems.
-- - src/civ5_agent/turn_requirements.py (inspect_turn_requirements): Requirements; Requirements/Ready.
-- - src/civ5_agent/controller.py (decide): Controller; Controller/Decides.
-- - src/civ5_agent/turn_executor.py: Executor and Executor/Bridges (_execute_turn_plan_core),
--   Executor/Steps (_report, _validated_step, _read_validated_state), Executor/Postconditions,
--   Executor/Coverage (_uncovered_requirement, _action_covers, _requirement_message), Executor/Events
--   (execute_turn_plan, _EventEmitter) and Executor/Reconcile (reconcile_turn_plan). The theorems on the
--   loop are in Executor/Gate (before a submission), Executor/Checked, Executor/Verified,
--   Executor/Advances and Executor/Settled (the answer),
--   Executor/Reports, Executor/Standing, Executor/Accounts, Executor/Rounds and Executor/Loop (the whole
--   execution), those on sinks in Executor/Lockstep and Executor/Transparent, those on reconciliation in
--   Executor/Outcomes, Executor/Sound and Executor/Resumes, and Executor/Refusals is about one error path.
-- - src/civ5_agent/command.py (execute_end_turn to execute_worker_build): Commands (the client, the shared
--   steps), Commands/Polling (the wait loop), Commands/Turns (end_turn, research), Commands/Cities,
--   Commands/Units (skip, move) and Commands/Builds. Commands/Terminates and Commands/Finds are about the
--   loop, Commands/Observed and its children about results.
-- - src/civ5_agent/watch.py (make_control_handler): Watch (requests, answers and the two caches),
--   Watch/Locked (a command's execution under the lock), Watch/Requests (handle_request and its
--   operations) and Watch/Game (the execution by the functions of command.py). Watch/Traces adds a log of
--   executions to a watcher; Watch/Once, Watch/AtMostOnce and Watch/ReadOnly are about that log, and
--   Watch/Honest about what a status request is answered, and what the requests asked for.
-- - src/civ5_agent/journal/codec.py and models.py: Journal, Journal/Json (the order of a dictionary's
--   fields in canonical JSON) and Journal/Codec (build_record, encode_record, decode_record);
--   Journal/Roundtrip. src/civ5_agent/journal/store.py: Journal/Reader (_read_verified), Journal/Writing
--   (_write_all) and Journal/Store (JournalStore). Of the lemmas, Journal/Invariants, Journal/Chain and
--   Journal/Reads are about the records that are read and Journal/Framed about their lines,
--   Journal/Writes about the loop of _write_all, Journal/Prepares, Journal/Appends, Journal/Sorting,
--   Journal/Extends, Journal/Reopens and Journal/Appending about operations that return, Journal/Outcomes
--   and Journal/Torn about those that raise.
-- - Base and Python hold what the parts share, Examples small games, watchers and journals on which the
--   theorems are run.
--
-- How the code is modelled:
-- - A JSON value is a Value: null, Boolean, integer, text, list or dictionary; True == 1 and the order of a
--   dictionary's fields are as in Python. Floats, tuples and other objects are not values. A field of a
--   dataclass that the code checks at run time is a Value; one whose type only an isinstance test guards,
--   such as the message of a report, has that type, and an index is a natural number.
-- - An exception is a Result: stale_plan for StaleTurnPlanError, invalid for any other ValueError
--   (ValidationError and TurnPlanError are subclasses), type_error, unavailable for OSError and its
--   subclasses, and unexpected for what no clause of the executor catches. Each except clause is a function
--   on these. The order of a set where a message shows it is sorted, and the loop over the set of context
--   dimensions takes the order of the source text. A list is in stable sorted order if no neighbours are
--   out of order; two that cannot be compared, also inside lists, raise TypeError.
-- - read_state and execute_action are functions on a world of any type (record Bridge); the event sink has
--   a state of its own. The loop of _execute_turn_plan_core is structural recursion over the actions that
--   are left, so no fuel is needed.
-- - SHA-256 of the canonical JSON of a value, and repr, are the parameter Runtime; of the digest only its
--   form, 64 lowercase hexadecimal digits, is assumed. New identifiers are arguments.
-- - The client of the game is the parameter Client of Commands: the requests, the clock and the sleep are
--   functions on a world of any type. Time is counted in units of the clock, in natural numbers. A wait
--   loop has one round of fuel more than the time limit has units; that is enough where a sleep takes a
--   unit at least and a reading does not set the clock back (IsTicking).
-- - The watcher's executions, audit log, journal and safety check are the parameter Backend of Watch;
--   game_backend of Watch/Game takes the executions from command.py, with the units of the clock in a
--   second as a parameter. The part of a request that holds connection_lock is one step, so that requests
--   are a sequence. The two dictionaries of the handler are association lists, the latest entry first.
--   verify_timeout is an integer; a float is not a value of the model, and the default 30.0 is 30. An
--   integer beyond the floats raises OverflowError, which the handler leaves alone.
-- - A byte is a type of its own in the parameter Encoding of Journal, which holds json.dumps and
--   json.loads of codec.py, the newline, SHA-256 and the test of a UTC timestamp. Assumed is that dumps
--   writes no newline, that loads reads back what dumps wrote, with the fields of dictionaries sorted by
--   name, that the hash and the refusal of a text without an UTF-8 form do not depend on that order, and
--   the form of the hash. A path is absent, cannot be opened (a symbolic link, a missing permission), is
--   a file of another kind, which may refuse to be opened for writing, or is a list of lines, of which
--   the last may lack its newline. What os.write accepts, and what os.fsync and os.close raise, is the
--   parameter Kernel, and the loop of _write_all has one round of fuel more than there are bytes.
--   os.fstat, os.fchmod and fcntl.flock are taken to succeed, and an operation on the file is one step.
--
-- What is not modelled: the protocol of the game (tuner.py), the socket and the loops of the watcher (ipc.py,
-- watcher_client.py, bridge.py, the rest of watch.py), JournalCapture, replay, export and verify_journal,
-- the knowledge base, authorization and grants, the live session and its integration runs, the adapter and
-- the command lines; they are behind the parameters, or read and write files. An answer that is not a
-- CommandResult is not an answer of the executor's bridge here.
pub mod Base
pub mod Journal
pub mod Python
pub mod State
pub mod Validation
pub mod Identity
pub mod Command
pub mod Plan
pub mod Requirements
pub mod Executor
pub mod Controller
pub mod Watch
pub mod Commands
pub mod Examples
