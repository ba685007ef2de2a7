-- ===== src/Web.antt =====
-- What the HTTP handlers of internal/dashauth and internal/api share.
pub mod Http
