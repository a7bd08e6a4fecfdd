-- ===== src/Lib.antt =====
-- The core of the travel planning agent in backend/: the plan of a trip, the phases it goes through,
-- the tools that the model calls and how a batch of calls is executed, the evidence that visits rest
-- on, the daily plans, the candidates of parallel workers, and the memory jobs beside it.
--
-- A plan (Plan, backend/state/models.py) is a record of the session's decisions. The router (Phase,
-- backend/phase/router.py) infers from it one of the phases 1 to 4 and, if the gates of
-- backend/agent/hooks.py allow, moves the plan there; a backtrack (backend/phase/backtrack.py) moves
-- it to an earlier phase and clears what was decided later. The engine of backend/tools/engine.py
-- (Tools) offers tools by phase and executes calls; backend/agent/execution/tool_batches.py takes the
-- calls of one answer of the model, groups those that only read, and stops at a backtrack. Around it
-- stands the loop of backend/agent/loop.py (Loop): each iteration asks the model with a history of
-- messages, executes the calls of its answer, and where the plan is then in another phase or step, starts
-- a new history; an answer without calls ends the run, unless the plan lacks what the answer tells. In
-- phase 2 the tools of backend/tools/plan_tools/phase2_tools.py write skeletons of the trip and select one
-- of them (Skeletons), and write lists of candidates, transport and the like (Choices). In the last
-- planning phase the tools of backend/tools/plan_tools/daily_plans.py (Daily) write the days of the
-- trip through backend/state/plan_writers.py and report conflicts of time found by
-- backend/harness/validator.py (Harness); what a visit claims is checked by
-- backend/tools/plan_tools/evidence.py against the registry of backend/tools/source_registry.py
-- (Evidence). Workers that plan days in parallel submit candidates to
-- backend/agent/phase3/candidate_store.py (Store), and backend/tools/optimize_day_route.py (Routes)
-- puts the stops of a day in an order. Independently of that,
-- backend/memory/async_jobs.py (Memory) chooses the messages of the user that the memory jobs read and
-- runs one such job at a time.
--
-- The modules by name:
-- Prelude: names, tests and lists that all modules share.
-- Python: values of Python, dicts with their order, exceptions with state, text, conversions.
-- Dates: date.fromisoformat, as days from 1 January of year 1.
-- Of backend/state/models.py there are the dataclasses in Model, their to_dict in Encode, their
-- from_dict in Decode and Load, infer_phase2_step_from_state in Step, clear_downstream in Downstream
-- and total_days in Days, all below the first of the modules named above.
-- Phase: HookManager in Hooks, PhaseRouter in Router; BacktrackService, execute_backtrack and the tool
-- request_backtrack in Backtrack.
-- Harness: _time_to_minutes, _validate_time_conflicts, validate_day_conflicts.
-- Daily: the writers of days in Writers, the validation of arguments in Checks, save_day_plan and
-- replace_all_day_plans in Tools.
-- Memory: the message windows in Windows, MemoryJobScheduler in Jobs.
-- Writers: the other writers of backend/state/plan_writers.py, normalize_pace_value, and AgentLoopLimits
-- of backend/agent/execution/limits.py.
-- Tools: ToolEngine in Engine and Phases, SearchHistoryTracker in History, the other functions of
-- backend/agent/execution/tool_invocation.py in Skips, execute_tool_batch in Batches.
-- Loop: Message and the histories of backend/agent/message_filters.py and
-- backend/agent/execution/message_rebuild.py in Messages, detect_phase_transition in Transition,
-- run_llm_turn and ReflectionInjector in Turn, the keys of backend/agent/execution/repair_hints.py in
-- Repair, AgentLoop.run in Run.
-- Context: backend/agent/compaction.py in Compaction, the hook before a call of the model of
-- backend/api/orchestration/agent/hooks.py in Summary.
-- Skeletons: the checks of skeletons in Days, set_skeleton_plans and select_skeleton in Tools.
-- Choices: the other tools of backend/tools/plan_tools/phase2_tools.py in Tools.
-- Evidence: SourceRegistry in Sources, with the lines of its files in Lines, validate_visit_info and
-- what it calls in Rules, the tool set_excluded_candidates in Excluded.
-- Store: Phase3CandidateStore in Candidates.
-- Routes: _distance_between of backend/tools/optimize_day_route.py in Distance, _order_pois in Stops, the
-- tool in Tool.
-- Tests: concrete runs.
--
-- A method that changes a plan is a function from the plan to a result beside the changed plan, also
-- where it raises: what was written before an exception stays written. Tools change a state of any
-- type, and so do the hooks after a call, which may raise: that ends a batch of calls. A plan keeps its
-- fields of no checked type as values of Python, so that a model reads what the source reads. Whole
-- numbers of Python are unbounded, and so are they here. The loop of AgentLoop.run is bounded by max_iterations, on which its model recurs.
-- Other recursion is structural but for two loops. That of execute_tool_batch runs for a number
-- of rounds, two for each call and one more, since a round either handles a call or finds a group of
-- reads empty, after which the next round handles one; that of _order_pois runs once for each stop, of
-- which it takes one. That this is enough is proved for both.
--
-- Parameters: Builtins stands for conversions whose tables are the interpreter's (str, int and float of
-- values that are not plain, lower), Measures for the estimates of commutes, Distances for floats with
-- their arithmetic and the functions of math, Json for json.dumps and json.loads; further ones are the
-- hash of source ids and asyncio.gather. What a theorem assumes of them it names: for gather, results in
-- order; for floats, how they compare away from NaN, and that the distances between the given places
-- are finite; for JSON, that a record is read back from its text.
-- What an agent loop is made of is a record, Parts: the model with its answers and the hooks before a
-- call of it, the texts of prompts and notices, the queue of steering. Of these hooks the loop assumes
-- that a history keeps its calls and answers together; the one of the source does so as long as it makes
-- no summary of older messages. Estimates of tokens with their comparisons, the text of a summary and
-- addresses without their query are parameters. Router, plan, context manager and reflection are there.
-- The guardrail, the other hooks, the signatures of tools and the cancellation of a run are parameters, too,
-- and nothing is assumed of them.
--
-- Not modelled: messages of errors and replies, prompts, logging and tracing, the search tools with
-- their services, the phase 3 of parallel workers inside the loop, the choice of a tool for a turn, the
-- web application, and the frontend.
pub mod Prelude
pub mod Python
pub mod Dates
pub mod Plan
pub mod Phase
pub mod Harness
pub mod Daily
pub mod Memory
pub mod Writers
pub mod Tools
pub mod Evidence
pub mod Store
pub mod Routes
pub mod Skeletons
pub mod Choices
pub mod Loop
pub mod Context
pub mod Tests
