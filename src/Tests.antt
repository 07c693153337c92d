-- ===== src/Tests.antt =====
-- Runs of the model of raknet_proxy.cpp, and its theorems at concrete data.
mod Data
mod Peers
mod Messages
mod Program
mod Bans
mod Replicas
mod Systems
mod Sending
mod Requests
mod Files
mod Access
mod Plugins
