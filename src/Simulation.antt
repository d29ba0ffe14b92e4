-- ===== src/Simulation.antt =====
-- operators/z21-sim-controller: the simulations that its controller plays to a simulator.
pub mod Resource
pub mod Controller
pub mod Applies
pub mod Registers
