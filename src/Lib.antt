-- ===== src/Lib.antt =====
-- The webhook pipeline: a receiver of sales webhooks and a worker that persists and distributes them.
--
-- The receiver (apps/receiver) takes a webhook of one of two gateways, decrypts it if it has to,
-- validates it, keeps the raw payload and a row of its key in MySQL, and publishes approved ones to
-- RabbitMQ. The worker (apps/worker) consumes them, calls a stored procedure, publishes one message
-- for each of four channels, and sends the SMS with retries through the queue. Both use the package
-- libs/common. The parts meet in the tables of MySQL and in the queues of RabbitMQ.
--
-- Files and the code that they model:
--   Prelude: texts, lists and tests that the other files share.
--   Json: values of `json.loads`. Exec: exceptions, and calls that change state and may raise;
--     Exec/Keeps and Exec/Gives have the rules for invariants of calls and for their values.
--   Common/Config: libs/common/src/gex_common/config.py. Common/Models: models.py beside it.
--   Common/Crypto: crypto.py, `decrypt_grummer`.
--   Common/Strip, Common/Phone, Common/Validation: validation.py; `normalize_email` and the blank
--     tests, the phone functions, `validate_schema`.
--   Common/Library: what the program calls and does not implement, as one record of parameters.
--   World: the tables of sql/001_create_tables.sql, what RabbitMQ has taken, the calls to come.
--   World/Session: `get_db_session` of apps/receiver/src/gex_receiver/dependencies.py, `db_session` of
--     apps/worker/src/gex_worker/db.py. The first commits after the response, as FastAPI runs it.
--   Receiver/Db, Receiver/Publisher, Receiver/Routes: db.py, publishers.py and routes.py of
--     apps/receiver/src/gex_receiver; the same names, with `receive_webhook` cut at its steps.
--   Worker/Procedure: `sp_insert_lead` of sql/003_stored_procs.sql.
--   Worker/Consumer, Worker/Retry, Worker/Dlq, Worker/Sms: consumers.py, middleware.py,
--     exception_handlers.py with dlq.py, and distributors.py, of apps/worker/src/gex_worker; `handle_lead`,
--     `handle_sms` and the functions of its retries are in main.py there.
--   Worker/Startup: the hooks of main.py and the engine of db.py there.
--   Common/Logging: logging.py of libs/common/src/gex_common.
--   Receiver/Middleware, Receiver/App: `StructLogMiddleware` and `lifespan` of
--     apps/receiver/src/gex_receiver/main.py, the second with `Database` of db.py. Receiver/Health:
--     health.py there.
--   Pipeline: the receiver and the worker together, as steps on one `World`; Pipeline/Closed is the
--     interface between what a property of the tables and of the messages has to survive and the
--     handlers' proofs, and Pipeline/Runs has what follows for whole runs.
--   Scripts/LoadPayloads: scripts/load_payloads.py; Scripts/LoadPayloads/Report is what it prints.
--   Tests: the theorems at concrete values.
--
-- State. `World` is what all parts share: the committed tables, what the open session sees, the
-- messages published in order, the schedule of the calls to come (`faults` for statements and
-- publishes, `commit_faults` for commits, `sms_attempts` for the POST of an SMS), the number of ids
-- drawn, the time, and the publisher's attributes. A call that raises has no effect; past the end
-- of a schedule every call succeeds. What was written before a raise stays in the session until the
-- session rolls back.
--
-- `App` is the receiver's process around a `World`: its loggers, its database engine, `app.state`.
-- `Process` is the worker's, with its loggers and its engine. `Wire` is one connection to
-- a client. A client of the loader has its own outcomes of POSTs.
--
-- Every loop is a recursion on a list or on the repeats that are left: no fuel is used.
--
-- Not modelled: log lines but the access log, the serialisation of messages, the limits of VARCHAR
-- columns and the rounding of DECIMAL ones, primary keys, a call that raises although it took
-- effect, the arguments of a queue but its dead-letter exchange, and transactions that interleave:
-- requests and messages are handled one after the other. Numbers of JSON and floats are their
-- literals, times are microseconds. The wiring of FastAPI and of FastStream, the settings of
-- connections, and the loader's parsing of its arguments are left out, as the libraries'.
pub mod Prelude
pub mod Json
pub mod Exec
pub mod Common
pub mod World
pub mod Receiver
pub mod Worker
pub mod Pipeline
pub mod Scripts
mod Tests
