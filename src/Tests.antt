-- ===== src/Tests.antt =====
-- Concrete runs of the models, and the theorems applied to them.
mod Keys
mod Tables
mod Maps
mod Cells
mod Chains
mod Expiry
mod Start
mod Firewall
mod Policer
mod Nat
mod Bridge
mod Cht
mod Lpm
mod Doubles
mod Served
mod Headers
mod Balancer
