-- ===== src/Engine.antt =====
-- internal/engine: the event queue, the guards and the event loop.
pub mod Event
pub mod Heap
pub mod Queue
pub mod State
pub mod Loop
pub mod RunManager
pub mod Fifo
mod Order
mod Examples
