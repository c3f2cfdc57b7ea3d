-- ===== src/Tests.antt =====
-- Runs of the model on concrete inputs, and the theorems at inputs that meet their hypotheses.
mod Core
mod Device
mod Endpoint
mod Protocol
mod Handshake
mod Serve
mod Transport
mod Msc
mod Dfu
mod Function
mod HostMsc
mod HostMtp
mod Mtp
