-- ===== src/Lib.antt =====
-- nl_kat_coordination: the core of OpenKAT, a framework that scans what an organisation has on the
-- internet. Its parts: mula schedules tasks and keeps them on queues in PostgreSQL; runners pop the
-- tasks and run boefjes (scans) and normalizers; bytes stores what they find; octopoes keeps the
-- objects, derives further ones and decides how far each may be scanned; katalogus says which boefjes
-- an organisation has enabled; rocky is the user interface.
--
-- This library models mula, the scheduler, over explicit tables, and how octopoes calculates scan
-- levels. A database action is a function from the tables to a result or an exception and the tables
-- after it (Mula/Database.antt). What other services answer, the time, random delays and new ids are
-- arguments.
--
-- Mula/Models: mula/scheduler/models/task.py, boefje.py, schedule.py: tasks, work items, hashes.
-- Mula/Database: the tables `tasks` and `schedules` with keys and the unique partial index.
-- Mula/PqStore, Mula/Ordering: mula/scheduler/storage/stores/pq.py, one function per method.
-- Mula/Queue: mula/scheduler/schedulers/queue/pq.py; `push` is PriorityQueue.push with its guards in
--   their order, `update_item` and `insert_item` its two ends; `pop_boefje` is BoefjePQ.pop.
-- Mula/TaskStore, Mula/ScheduleStore, Mula/Paging: storage/stores/task.py and schedule.py; `get_page`
--   is the end that get_tasks and get_schedules share.
-- Mula/Rankers: mula/scheduler/schedulers/rankers.
-- Mula/Scheduler: mula/scheduler/schedulers/scheduler.py: push_item_to_queue, post_push, deadlines, the
--   wait for space.
-- Mula/Boefje, Mula/BoefjeQueue, Mula/BoefjeTasks: mula/scheduler/schedulers/schedulers/boefje.py: the
--   checks of a task, the push and the deadline of its schedule, push_boefje_task.
-- Mula/Mutations: process_mutations of the same file, and the message that it gets from
--   octopoes/octopoes/events/manager.py. Mula/Rescheduling: process_rescheduling for one schedule.
-- Mula/Normalizers, Mula/Reports: normalizer.py and report.py beside it.
-- Octopoes/Paths: octopoes/octopoes/models/path.py: segments between types, the levels that pass along
--   them, the paths to neighbours.
-- Octopoes/Profiles: octopoes/octopoes/core/service.py: the levels that recalculate_scan_profiles
--   assigns; `expand` is one iteration of its inner loop, `propagate` that loop, `level_pass` one level.
-- Octopoes/Recalculation: the rest of recalculate_scan_profiles: what it saves for the assigned levels,
--   what it resets, and the empty profiles it creates; `save` is XTDBScanProfileRepository.save.
-- Octopoes/Explanations: get_scan_profile_inheritance of the same file; its recursion is on fuel, and the
--   sections of the loops over paths and neighbours are `inheritances`.
-- Octopoes/Origins: octopoes/octopoes/models/origin.py, and merge_ooi. Octopoes/Session: XTDBSession of
--   octopoes/octopoes/xtdb/client.py, the stored entities and the events of octopoes/octopoes/events.
-- Octopoes/Repositories: the reads, saves and deletes of octopoes/octopoes/repositories. A read sees
--   what was committed; a save or delete adds an operation and an event to the session.
-- Octopoes/Service, Octopoes/Inference, Octopoes/Handlers: octopoes/octopoes/core/service.py:
--   save_origin and _delete_ooi, _run_inference, the handlers of process_event. A handler is a function
--   from the store to what it writes to its session, with the exception where it raises one.
-- Octopoes/Bits: octopoes/bits/definitions.py and find_relation_in_tree.
-- Octopoes/Rules: the rules of octopoes/bits about ports.
-- Octopoes/Requests: octopoes/octopoes/api/router.py: the requests that save or delete one origin or
--   object. Octopoes/Collection: what an object's origins are for; `Step` is a request or an event of
--   octopoes/octopoes/tasks/tasks.py, the events in any order and handled by one worker, whose session
--   (octopoes/octopoes/core/app.py) keeps what a handler that raises has written.
-- The modules below these hold the proofs and are named for what they prove; Examples hold runs.
--
-- Times are whole seconds and ids are numbers. Fuel bounds the wait for space and the loop over
-- neighbours; Mula/Scheduler/Waiting and Octopoes/Profiles/Pass show how much is enough. A call
-- that holds the queue's lock and waits for space, which only another thread could make, is the error
-- `waits_forever`.
--
-- Parameters: SHA-1 and the text of a UUID (`Hasher`), croniter (`Env.next_run`), Katalogus, Bytes and
-- Octopoes (`Services`), a filter of a request (a predicate on rows); the types of objects (`Types`)
-- and what XTDB returns to the repositories (`Objects`); the code of the bits, the classes of objects
-- and the queries for trees and configurations (`Environment`).
--
-- Not modelled: the REST server, AMQP listeners, threads and the wiring of the scheduler; retries of
-- a failed database connection; of octopoes the
-- history of entities (one valid time is taken), handlers that run at the same time and further workers, bulk requests, the
-- code of the other bits and the queries; bytes, boefjes and rocky.
pub mod Prelude
pub mod Mula
pub mod Octopoes
