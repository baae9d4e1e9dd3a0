-- ===== src/Examples.antt =====
-- Runs of the models on small concrete inputs.
mod Radio
mod Profile
mod Runtime
mod Turns
mod Client
mod Mesh
mod Rounds
mod Hops
