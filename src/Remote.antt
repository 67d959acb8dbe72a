-- ===== src/Remote.antt =====
-- What the runner and the store see of Runpod, of the pods' shells and of the clock.
pub mod Pod
pub mod Outside
pub mod Exec
pub mod Timed
pub mod Relates
pub mod Post
