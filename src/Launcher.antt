-- ===== src/Launcher.antt =====
-- apps/rocket: the launcher.
pub mod Apps
pub mod ReadApps
pub mod Drafts
pub mod DraftRoundTrip
pub mod State
pub mod Events
mod Paths
mod Descriptions
mod Sorting
pub mod Merge
pub mod Processes
pub mod Lock
pub mod Exclusive
mod Faultless
mod Always
pub mod Run
pub mod Select
pub mod ForkFails
mod Examples
