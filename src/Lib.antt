-- ===== src/Lib.antt =====
-- EVE AI: the coordination of its agent, verified.
--
-- The program answers pilots through an agent. A message from the web becomes a row in a table of
-- requests (src/web/agent-requests.ts), behind limits on requests and cost (src/web/web-admission.ts).
-- A coordinator runs the rows, one at a time in each conversation and a bounded number at once.
-- A running turn keeps a plan (src/agent/planner.ts, src/agent/replanner.ts), waits for a slot of
-- the model (src/agent/response-admission.ts), and may set the route that the map shows
-- (src/eve-map/active-route.ts). The map has its own handler that plans a route past the systems
-- that the pilot avoids (src/web/map-routes.ts, src/eve-map/avoid.ts, src/eve/map-graph.ts). Logins
-- go through one-time requests (src/auth/auth-request.ts) and a lock on the lane
-- (src/web/web-lane-lock.ts); the terminal has a queue of lines (src/cli/input-queue.ts).
--
-- Modules:
--   Base: names of the libraries, Boolean tests on numbers, lists, signed ids, and a table of
--     rows with the statements that the program runs on it (SELECT, UPDATE, DELETE, Map.set).
--   Web/Admission (src/web/web-admission.ts): `admit_web_event` is admitWebEvent, with one test
--     per early return; `record_session` is the row of a new session (src/web/web-session.ts), and
--     `prune_events` the pruning in recoverAfterRestart. Windows and NewRow hold the lemmas on one
--     row more, Runs the limits over any operations, Outcomes the two outcomes of one call.
--   Web/Requests (src/web/agent-requests.ts, class WebAgentRequestCoordinator): Rows has
--     the row of web_agent_requests and its UPDATE statements, State the coordinator's fields,
--     `finish` and the statements on messages, Queue what a caller does (enqueue, readOwned,
--     readActive, cancel, cancelLane, cancelLaneAndWait), Execution what the worker does (start,
--     scheduleDrain, drain, claimNext, execute with its heartbeat, recordActivity, recordTextDelta,
--     closeIngress, close, recoverAfterRestart), Steps the events and their runs. Enqueue calls
--     `admit_web_event`, so both tables stand in one state. Rows/Moves says how a row may move;
--     the modules under Steps prove it of every event and draw the invariants from it.
--   Web/LaneLock (src/web/web-lane-lock.ts): withWebLaneAuthorizationLock on one lane, with the promises
--     as a chain of tickets; Exclusion follows the chain over any events.
--   Agent/Responses (src/agent/response-admission.ts, class ResponseAdmissionController): the
--     slots, the queue of waiters, and the release closures by number. Slots and Waiters prove
--     the invariants over any events, Order the order in which waiters are served.
--   Agent/Plan (src/agent/planner.ts, src/agent/replanner.ts): the tables plans and plan_steps,
--     updatePlan, getPlan, finalizePlanFailure, finalizePlanCompletion, recoverInterruptedPlans,
--     prunePlans and replanOnFailure. Rows says what getPlan reads behind each statement; Turns,
--     Restart, Inserts, Replacing, Changes with Replanning, and Retention treat the operations.
--   EveMap/ActiveRoute (src/eve-map/active-route.ts): the routes of the lanes, the listeners and
--     what they are told. Screens, Expiry and Readers treat the listener, the sweep and the reader.
--   Auth/Requests (src/auth/auth-request.ts, with protectOpaqueToken of src/auth/secret-storage.ts): the
--     table auth_requests and its calls. Rows has what a statement does to all rows, Tokens the
--     single use and the single consent, Pending what a new request reads.
--   Cli/InputQueue (src/cli/input-queue.ts): createInputQueue, with the pump cut at its `await`; Order
--     has the order of the lines and the end of a queue.
--   Eve/MapGraph (src/eve/map-graph.ts): the adjacency lists of the map (`load_graph`), jumpDistance
--     (`jump_distance`), bubbleFrom (`bubble_from`) and, in Routes, routeWithRisk with hopCost
--     (`route_with_risk`, `hop_cost`). Levels has walks and what a breadth-first search knows after
--     a round; Distance, Rings, Bubbles and Nodes use it. Costs is the interface of the numbers that
--     a route adds up; Routes/Walks, Relaxing, Rounds, Optimal and Answers follow Dijkstra's search
--     from one neighbour to the answer.
--   EveKill/Watch (src/eve-kill/watch.ts): the table kill_watches with addWatch, removeWatch,
--     removeAllWatches and listWatches; Limits follows any calls.
--   EveMap/Avoid (src/eve-map/avoid.ts): the table map_avoid_systems, listAvoided, avoidSetFor,
--     addAvoided, removeAvoided, clearAvoided and effectiveAvoidSet. Sets, Outcomes and Limits treat
--     membership, one call, and any calls.
--   EveMap/Planning (src/web/map-routes.ts, POST /api/web/map/route): `plan_on_map` reads the avoid
--     list, calls `route_with_risk` and `remember_route`, as the handler does; Avoiding puts the
--     three components' theorems together.
--   Examples, in each part: runs at concrete inputs and instances of the theorems.
--
-- How state and time are modelled. A table is the list of its rows in rowid order. An operation
-- takes the state and returns it; the clock, fresh ids, the hash of a message, the runner's result
-- and the order of timers and promises are arguments or events, so a theorem over all events holds
-- for every interleaving of them. One event is one synchronous stretch of the source, as JavaScript
-- runs it. Numbers are natural, a chat id is signed, and a difference of times is written as a sum.
-- A throw of SQLite's keys is a value of the result.
--
-- Bounds and fuel. `drain_loop` takes fuel: one claim takes a free slot, so the configured number
-- of concurrent requests is enough for the loop to stop by itself. The search of routeWithRisk
-- settles one system more in each round, so its fuel is the number of link ends and two more, and
-- the walk back from the destination passes each settled system at most once. jumpDistance and
-- bubbleFrom run on their limit and radius. Nothing else needs fuel.
--
-- Not modelled: the model's API and the tools, the HTTP layer, the chat channels, the clients of
-- the EVE services, analytics in floating-point numbers, the browser application and the scripts.
-- They are network, terminal or presentation code around the parts above, or parts of their own.
-- Of the coordinator, logging is left out, and the wait loops of close and cancelLaneAndWait are
-- the events between their parts. A listener of routes that calls back is left out too. Of the map,
-- its build from the static data and the gates' places in space are not modelled.
pub mod Base
pub mod Agent
pub mod Auth
pub mod Cli
pub mod Eve
pub mod EveKill
pub mod EveMap
pub mod Web
