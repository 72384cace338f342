-- ===== src/Net.antt =====
-- The connection and the login session (src/hotline/net), and addresses (src/appwarrior/net).
pub mod Connection
pub mod Session
pub mod Address
