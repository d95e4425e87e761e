-- ===== src/Tests.antt =====
-- Concrete libraries and services, and the theorems applied to them.
mod Lists
mod Stocks
mod World
mod Sample
mod Links
mod Polling
mod Apps
mod Connection
mod Frames
mod Services
mod Callbacks
mod Whole
mod Opening
