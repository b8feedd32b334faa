-- ===== src/Jobs.antt =====
-- The jobs of YAMA: YAMA/src/funcionesYAMA.c and YAMA/src/server.c, the table of states, the loads of
-- the nodes, and what YAMA sends to the Masters.
pub mod State
pub mod Loads
pub mod Table
pub mod Stages
pub mod Replan
pub mod Server
pub mod Isolation
mod Run
mod Unload
mod Clears
mod Marking
pub mod Abort
mod JobLoads
pub mod Encargado
pub mod Numbers
pub mod Balance
mod Tests
