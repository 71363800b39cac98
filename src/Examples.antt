-- ===== src/Examples.antt =====
-- The theorems at concrete inputs, one file per part.
mod Sessions
mod Devices
mod Caching
mod Races
mod Teardown
mod Background
mod Buses
mod Idp
mod Logins
mod Browsers
mod Upstreams
mod Headers
mod Pushes
mod Alerts
mod Rings
mod Migrations
mod Requests
mod Sending
mod Streams
mod Sweeps
