-- ===== src/Tests.antt =====
-- Concrete services, and runs of the program's functions with them.
mod Instances
mod Chain
mod Managers
mod Transactions
mod Taking
mod Outcomes
mod Retries
mod Consuming
mod Sockets
mod Pricing
mod Api
mod Serving
mod Requests
mod Watching
mod Prices
mod SettingUp
mod Fees
mod Tracking
mod Configured
