-- ===== src/Examples.antt =====
-- The theorems at concrete inputs, each module for the parts it is named after.
mod Closes
mod Valves
mod Gateways
mod Wire
mod Routers
mod Updates
mod Geofences
mod Spools
mod Doors
mod Markers
mod Checkins
mod Relays
mod Versions
mod Calls
mod Readings
