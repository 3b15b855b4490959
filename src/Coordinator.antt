-- ===== src/Coordinator.antt =====
-- core/raddi_coordinator.h and core/raddi_coordinator.cpp, which decides what a node does with its
-- connections.
pub mod Budget
pub mod Contacts
pub mod History
pub mod Levels
pub mod Limiter
