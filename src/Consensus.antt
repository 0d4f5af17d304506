-- ===== src/Consensus.antt =====
-- web3_proxy/src/rpcs/consensus.rs, in three parts: the heads of one group of servers (`Group`), the
-- vote on a head block within a group (`Head`), and the groups of all tiers (`Finder`).
pub mod Group
pub mod Head
pub mod Finder
