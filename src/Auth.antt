-- ===== src/Auth.antt =====
-- The package auth: passwords, opaque tokens, JSON web tokens, one-time codes and sessions, one
-- module for each file.
pub mod Passwords
pub mod Tokens
pub mod Jwt
pub mod Totp
pub mod Sessions
