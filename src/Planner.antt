-- ===== src/Planner.antt =====
-- planner.py: from a deployment to an ordered plan. `Plan` has the data, `Env`, `PodInput`,
-- `Actions` and `Build` the functions, and the others what is proved of them.
pub mod Plan
pub mod Env
pub mod PodInput
pub mod Actions
pub mod Build
pub mod Order
pub mod Commands
pub mod Resources
pub mod PodLaws
