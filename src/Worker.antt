-- ===== src/Worker.antt =====
-- apps/worker: the consumers of RabbitMQ's queues, and their middlewares.
pub mod Procedure
pub mod Consumer
pub mod Retry
pub mod Dlq
pub mod Sms
pub mod Startup
