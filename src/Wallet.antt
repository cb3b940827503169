-- ===== src/Wallet.antt =====
-- internal/wallet: the memo, the mock verifier and the toncenter verifier.
pub mod Memo
pub mod Mock
pub mod Ton
