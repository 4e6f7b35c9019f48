-- ===== src/Examples.antt =====
-- The theorems at concrete inputs: the installation of Samples.antt, its key-value server, and
-- operations that run on it.
mod Transactions
mod Material
mod Data
mod Identities
mod Texts
mod Requests
mod Dispatch
