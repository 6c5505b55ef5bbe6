-- ===== src/Tests.antt =====
-- A network of one validator, and the theorems applied to it.
mod Toy
mod ToyData
mod ToyNet
mod NetWitnesses
mod Script
mod Agreed
mod TwoNodes
mod Witnesses
