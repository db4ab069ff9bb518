-- ===== src/Web.antt =====
-- What stands in front of the endpoints: Web/Csrf is backend/app/core/csrf.py, Web/Startup the refusal
-- of backend/app/core/config.py to start with unsafe settings.
pub mod Csrf
pub mod Startup
pub mod Tests
