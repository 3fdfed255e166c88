-- ===== src/Wallet.antt =====
-- Money in and out of the wallet: pages/deposit-withdraw.
pub mod Amount
pub mod Drawer
pub mod Choice
pub mod Screen
pub mod Form
