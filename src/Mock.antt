-- ===== src/Mock.antt =====
-- src/mock.rs and src/mock: the mock server.
pub mod Rules
