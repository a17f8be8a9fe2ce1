-- ===== src/Lib.antt =====
-- The distributed task system: a client submits a job as a graph of tasks (SubmitDag), the
-- api-server gives it ids, writes it to PostgreSQL and Redis, the scheduler hands the tasks that are
-- ready to workers, and each success that a worker reports releases the tasks that waited for it.
--
-- Redis: the commands that the code uses, as an interface with the laws that the Redis manual
--   gives them; `Redis.Keys` is src/common/include/redis/RedisKeys.hpp, `Redis.Families` takes all
--   its keys together, and `Redis.Memory` is an implementation of the interface, which shows that the
--   laws can hold.
-- CompleteTask: the Lua script of src/common/include/redis/scripts/complete_task.hpp.
-- Workflow: the graph of a job and what is still held back, and runs of the script over it. `script_call` is
--   the call that SchedulerServiceImpl::UpdateTaskStatus makes.
-- Submitter: src/api-server/src/task_submitter.cpp. `Submitter.Queue` is SubmitDagAsync,
--   FlusherLoop and ProcessBatch; `Submitter.Database` is FlushDBBatch over the tables of init.sql;
--   `Submitter.Pipeline` is AppendDagToPipeline, and `Submitter.Delivery` and `Submitter.Progress` are
--   about a request from its submission over the runs of `Workflow`.
-- Scheduler: src/scheduler/src. `Repository` is task_repository.cpp, `Batcher` db_batcher.cpp, `Workers`
--   worker_manager.cpp, `Service` scheduler_service_impl.cpp, `Loop` scheduler_loop.cpp
--   and `Patrol` the patrol of main.cpp.
-- JobQuery: src/api-server/src/job_query_handler.cpp.
-- ApiServer: the RPC layer of api-server, src/api-server/include/api_server.hpp and
--   src/api-server/src/api_server.cpp, and the handler of SubmitDag of src/api-server/src/main.cpp;
--   `Server` is AsyncServer with its queues, from Run to Shutdown.
-- ApiWeb: handle_dag_submit of src/api-web/src/api_web.cpp, from the body of an HTTP request over `DagBuilder`
--   to the answer of the call, and `Waiting`, the coroutines of these calls with the awaiter of
--   src/common/include/coroutines/dts_coroutine.h and the thread of GrpcClient that resumes them.
-- DagBuilder: src/client/src/dag_builder.cpp.
-- Converters: src/common/src/converters.cpp with src/common/include/task.hpp and dag.hpp: `Json` is
--   JsonToStruct and StructToJson, `Tasks` and `Requests` are tasks and requests.
-- WorkerNode: src/worker/src: the registry, RunTask, OnTaskReceived over `ThreadPool`, the reports of
--   scheduler_client.cpp, `Heartbeat`, the heartbeat loop against the handlers of `Scheduler.Service`, and
--   `Driving`, these handlers over the reports of workers; `Bodies` is tasks.cpp.
-- ThreadPool: src/common/include/thread_pool.h. DatabasePool: src/common/include/database_pool.h.
-- RedisManager: src/common/src/redis/RedisManager.cpp over a client that answers or throws.
-- GrpcClient: src/client/src/grpc_client.cpp and src/client/include/async_tags.hpp.
-- Startup: InitWithRetry of src/common/include/utils/utils.hpp.
-- Turns: a round robin by an index modulo the number of places, for `Scheduler.Loop` and `ApiServer`.
-- Common: lists, options, texts, maps and integers. Tests: the inputs at which the theorems are tried.
--
-- Threads are an explicit order of steps, each of them the code under one lock. Exceptions are `none` or an
-- outcome of a data type. A transaction that cannot be run, a broken connection and a
-- script that fails are arguments. PostgreSQL is a record of tables whose inserts check the keys
-- of init.sql; in the scheduler it is the list of the rows of the table task. Ids (uuid),
-- serialisation, JSON, std::sort and the order that a query asks for are parameters. Counters are natural
-- numbers or integers without a bound; a counter of the script may fall below zero as in Redis. A pqxx
-- connection, the clients of gRPC and Redis and what a job does are parameters or arguments, and so
-- are the events of a completion queue, each of which is for a tag that the queue was given and owes.
-- Fuel: `Scheduler.Batcher.drain` needs one unit for each operation in the queue, the loop of
--   `Scheduler.Batcher.Running` two steps for each and two, and `DagBuilder.validate_cycle`
-- takes one more than there are tasks; `Startup.init_with_retry` takes one more than max_retries.
--
-- Not modelled: the HTTP server, logging, metrics, configuration and the rest of start-up and shutdown, which are
-- input and output; expiry of keys by time; the consumer groups of the stream beyond the
-- acknowledgements that the scheduler sends; the integers of fixed width, but for the casts of
-- `Converters.Tasks` and `ApiWeb`; src/drop, which no build file names.
--
-- Simplified: json::out_of_range of a number that overflows is taken as a parse_error in
--   `parse_params`; std::stoi on a bad DTS_INITIAL_CONTEXT, a server that is not built, and an error
--   reply that is read by replies.get in FetchTaskDetails do not occur; LOG(FATAL) of InitWithRetry
--   ends the process, and here the function. An exception out of TaskSerializer::FromMetaBinary has no
--   constructor of its own: it does what a `broken` fetch does. A round of SchedulerLoop is one
--   step; its calls to workers end between rounds, in any order.
--   The destructor of a worker, which destroys its client before its pool, is left out.
pub mod Common
pub mod Turns
pub mod Redis
pub mod CompleteTask
pub mod Workflow
pub mod Submitter
pub mod Scheduler
pub mod Converters
pub mod JobQuery
pub mod DagBuilder
pub mod DatabasePool
pub mod ThreadPool
pub mod WorkerNode
pub mod RedisManager
pub mod ApiServer
pub mod ApiWeb
pub mod Startup
pub mod GrpcClient
pub mod Tests
