-- ===== src/Tests.antt =====
-- Runs of the code at concrete inputs, and the theorems at inputs that meet their hypotheses.
mod Arena
mod Chains
mod Smalloc
mod Paging
mod Space
mod Heap
mod Start
mod Runtime
mod Devices
mod Boot
mod Counts
mod Mapping
mod Parse
mod Assembly
