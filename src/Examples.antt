-- ===== src/Examples.antt =====
-- Tests and runs at concrete inputs: part of the general-task definition, one card and its claim,
-- and a small repository.
mod General
mod Actions
mod Graphs
mod Delivering
mod Working
mod Calling
mod Stopping
mod Reading
mod Queueing
