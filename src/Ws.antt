-- ===== src/Ws.antt =====
-- internal/ws: the hub of a channel's WebSocket clients.
pub mod Events
pub mod Hub
pub mod Pumps
pub mod Delete
pub mod Wf
pub mod Accounting
mod Offers
pub mod Fanout
mod Tests
