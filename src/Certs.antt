-- ===== src/Certs.antt =====
-- The certificates of the endorsement key and of its issuers: those that Windows keeps in the registry
-- (src/client/rootherald_win.cpp, src/certs/win_cert_store_intermediates.cpp), and AMD's
-- (src/certs/amd_aia_fetch.cpp).
pub mod Blobs
pub mod Store
pub mod Amd
