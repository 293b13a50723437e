-- ===== src/Jobs.antt =====
-- packages/platform/src/jobs: the queue of jobs and the loop of the worker that runs them.
pub mod Row
pub mod Queue
pub mod Lease
pub mod Enqueue
pub mod Sound
pub mod Steps
pub mod Claimed
pub mod Returned
pub mod Kept
pub mod Chosen
pub mod Poller
pub mod Leases
pub mod Unleased
mod Tests
pub mod Consistent
pub mod Budget
