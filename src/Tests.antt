-- ===== src/Tests.antt =====
-- The theorems applied to concrete states of each part, with the data that the examples share.
pub mod Data
mod Machine
mod Monitoring
mod Scheduling
mod Configuration
mod Events
mod Stopping
mod Steering
mod Trajectories
mod Sensors
mod Stops
mod Estimating
mod Driving
mod Watching
mod Slipping
mod Teleoperating
