-- ===== src/Store.antt =====
-- internal/store: the invoice, the contract of a store, and the in-memory store.
pub mod Invoices
pub mod Files
pub mod Contract
pub mod Memory
pub mod Postgres
