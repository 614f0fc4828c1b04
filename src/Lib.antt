-- ===== src/Lib.antt =====
-- The panel of Troxe Host, a host of game servers: panel/src, in TypeScript.
--
-- The panel keeps its state in PostgreSQL. A request passes the session check and the guards, and
-- its route changes rows and adds jobs to a queue. A worker takes the jobs one by one and calls the
-- agent of the server's node; a scheduler adds jobs by the cron expressions of schedules.
--
-- Db.antt: the tables of panel/src/db/migrations: People.antt the users with their keys and
--   preferences, Places.antt nodes, allocations, eggs and database hosts, Hosted.antt the servers
--   with what belongs to them, Queued.antt jobs and events. Table.antt is SELECT, UPDATE and DELETE,
--   Patch.antt the columns that a body names, Counting.antt the lemmas of both.
-- Reply.antt: what a route answers.
-- Js.antt: what the code uses of JavaScript's strings (split, trim, parseInt, includes).
-- Agent.antt: agentRequest of panel/src/lib/node-agent.ts.
-- Effects.antt: the monad of the handlers: database, calls, mail, queue, clock and errors.
-- Workers: panel/src/workers/index.ts. Steps.antt holds what the handlers share, Power.antt
--   server.start, stop, kill and restart, Install.antt server.create and install (whose SELECT names
--   a column that no migration declares, so that what stands behind it is split off), Removal.antt
--   server.delete, server.command, backup.create and backup.delete, Queue.antt addJob and the worker.
-- Scheduler: panel/src/services/scheduler.ts. Field.antt is matchField, Cron.antt matchesCron,
--   Runs.antt executeSchedule and the tick.
-- Auth: panel/src/api/middleware. Keys.antt is auth.ts, Rbac.antt rbac.ts, Session.antt security.ts.
-- Account.antt: panel/src/api/routes/auth.ts (register, login, profile, password, second factor),
--   with Account/ApiKeys.antt for the keys, Account/Cookies.antt for the logout, and
--   Account/Notifications.antt for notifications.ts.
-- Servers.antt: panel/src/api/routes/servers.ts (power, start, stop, restart, delete), with
--   Servers/Create.antt for the creation and Servers/Transfer.antt for transfers. Accounts.antt holds
--   the totals of the nodes against the sums of their servers, Transfer/Moves.antt what a transfer
--   moves, and Undeleted.antt what the worker makes of a deletion. Backups.antt is backups.ts,
--   Schedules.antt schedules.ts, Settings.antt server-settings.ts, Subusers.antt subusers.ts,
--   Databases.antt databases.ts, Databases/Hosts.antt database-hosts.ts, Files.antt files.ts and
--   console.ts. Overview.antt is what servers.ts lists.
-- Admin: panel/src/api/routes/admin.ts. Places.antt is nodes and allocations, Catalog.antt locations,
--   nests and eggs, Users.antt the users, Heartbeat.antt the report of an agent, Overview.antt the
--   reading routes. Links.antt holds what a server refers to.
-- Statistics.antt: panel/src/services/stats-collector.ts.
-- Events.antt: the event bus of panel/src/events/index.ts.
-- Tests: the concrete inputs that the results are applied to.
--
-- A handler is a function from a state to a result, returned or thrown, and a state. It runs from
-- its start to its end with no other in between, and the database is up: a statement fails only by
-- a foreign key, or by a column that its table has not, which the model tests. A row of a table is
-- found by the first that matches, where the code has a primary key. An agent's answer is a parameter
-- that may depend on every call before it, and a path in a call is the text that the code puts into
-- the URL; random ids, hashes, signatures, codes of the second factor and passwords are parameters
-- too.
-- Numbers are exact, and the totals of a node are signed. No definition runs on fuel: each loop is
-- a recursion on a list or on a text.
--
-- Not modelled: the parsing of bodies by zod and of columns by the driver, BullMQ's retries and its
-- concurrency, the substitution of variables in a startup command, the routes of images, themes and
-- monitoring, the socket of the console, the streams of uploads and downloads, the mail
-- service, the agent (node-agent, in Go), and the frontend.
mod Common
pub mod Js
pub mod Db
pub mod Agent
pub mod Effects
pub mod Workers
pub mod Auth
pub mod Scheduler
pub mod Reply
pub mod Account
pub mod Servers
pub mod Admin
pub mod Events
mod Tests
pub mod Statistics
