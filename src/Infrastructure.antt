-- ===== src/Infrastructure.antt =====
-- project/src/infrastructure: the task wrapper of the job queue, the rate limit and the daily
-- counters, with the model budget that reads them.
pub mod Queue
pub mod RateLimit
pub mod Counters
pub mod Gateway
