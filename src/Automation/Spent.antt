-- ===== src/Automation/Spent.antt =====
-- A reservation is spent once: what is read of the secret store was reserved before, for good.
pub mod Quiet
pub mod Lasting
pub mod Parts
pub mod Reserved
pub mod Once
