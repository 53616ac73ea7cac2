-- ===== src/Frpcfg.antt =====
-- internal/frpcfg/frpcfg.go, but for the allowed ranges of ports: the names of proxies and the texts
-- of the configurations.
pub mod Names
