-- ===== src/Auth.antt =====
-- src/auth: the requests that link an account.
pub mod Requests
