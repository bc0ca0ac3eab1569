-- ===== src/Service.antt =====
-- internal/pkg/service: who may connect, which connections a user has, and what traffic is owed to
-- the panel.
pub mod Traffic
pub mod Users
