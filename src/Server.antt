-- ===== src/Server.antt =====
-- The server's own logic (src/openlabels/server).
pub mod RateLimit
pub mod Pagination
