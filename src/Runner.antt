-- ===== src/Runner.antt =====
-- runner.py: `RunpodRunner` and the functions beside it.
pub mod Endpoints
pub mod Substitution
pub mod Pods
pub mod Shell
pub mod Waits
pub mod Launch
pub mod Commands
pub mod Agent
pub mod KeepAlive
pub mod Lifecycle
pub mod Run
pub mod Termination
pub mod Ends
pub mod Total
pub mod LifecycleEnds
pub mod Finished
pub mod Status
pub mod Attempts
pub mod Volumes
