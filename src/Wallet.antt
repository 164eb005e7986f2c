-- ===== src/Wallet.antt =====
-- The wallet: frontend/src/client/modules/wallet.
pub mod Payment
pub mod Store
pub mod TopUp
pub mod History
