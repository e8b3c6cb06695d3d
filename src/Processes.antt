-- ===== src/Processes.antt =====
-- processes: the round-robin scheduler (scheduler.c), process numbers (pid.c), process
-- control blocks (pcb.c) and the life of processes (process.c).
pub mod Scheduler
pub mod Pcb
pub mod Process
pub mod Create
pub mod Boot
mod Tests
