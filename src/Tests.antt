-- ===== src/Tests.antt =====
-- Concrete inputs for the models, runs on them, and one use of each general
-- theorem that has conditions.
mod Logs
mod Keys
mod Devices
mod Nv
mod Objects
mod Paths
mod Machine
mod Certificates
mod Clients
