-- ===== src/Core.antt =====
-- core: session ids, the events that the domains publish, and the bus that delivers them.
pub mod Event
pub mod Bus
pub mod Logger
