-- ===== src/Service.antt =====
-- internal/service: the invoice lifecycle, create -> verify -> claim once -> settle.
pub mod Program
pub mod Setup
pub mod Run
pub mod Returns
pub mod Settle
pub mod Create
pub mod Status
pub mod Interleave
pub mod Locks
pub mod Tests
