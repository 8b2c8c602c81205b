-- ===== src/Acme.antt =====
-- Certificate management: internal/acme. The TXT record store, the DNS provider over it, and the
-- manager.
pub mod TxtStore
pub mod Provider
pub mod Manager
