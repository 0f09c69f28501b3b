-- ===== src/XTables.antt =====
-- src/XTables: rules, chains and tables of iptables.
pub mod ChainRule
pub mod Chain
pub mod Table
