-- ===== src/Axum.antt =====
-- dr-metrix-axum
pub mod Fields
pub mod Layer
pub mod State
pub mod Handler
