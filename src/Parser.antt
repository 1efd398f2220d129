-- ===== src/Parser.antt =====
-- src/parser: the tasks, the workers that run a service each, and the pipeline of the services.
pub mod Task
pub mod Worker
pub mod Pipeline
pub mod Ends
pub mod Saved
pub mod Stats
pub mod Link
pub mod Queue
mod Tests
