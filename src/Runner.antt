-- ===== src/Runner.antt =====
-- runner.py: the resolution of a dataset, and the execution as a state machine over the events that
-- the event loop may choose.
pub mod Resolve
pub mod Machine
pub mod Accounting
pub mod Bounds
mod Tests
