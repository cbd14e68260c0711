-- ===== src/Examples.antt =====
-- The theorems at concrete inputs, and tests of the models.
mod Nils
mod Configuring
mod Refusing
mod Registering
mod Serving
mod Resources
mod Logging
mod Copies
mod Answers
mod Starting
mod Pools
mod Failing
mod Running
mod Sharing
mod Arriving
mod Restarting
mod Networking
mod Delivering
mod Processing
