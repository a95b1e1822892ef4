-- ===== src/Jobs.antt =====
-- jobs.c: the queue of jobs, the finished jobs and the clients that wait for a job.
pub mod Json
pub mod Find
pub mod Notices
pub mod NewJob
pub mod Finish
pub mod Order
pub mod Remove
pub mod Wait
pub mod Query
pub mod Schedule
pub mod Slots
pub mod Lookup
pub mod Ids
pub mod Keep
