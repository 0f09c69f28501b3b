-- ===== src/DnsMasq.antt =====
-- src/DNSMasqConfiguration and src/DNSMasqController: configuration files of dnsmasq.
pub mod Configuration
pub mod Controller
pub mod Kept
