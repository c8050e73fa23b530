-- ===== src/Tenant.antt =====
-- Tenants and the controls on their triggers (internal/tenant).
pub mod Service
pub mod Controls
