-- ===== src/Roles.antt =====
-- The two applications' ends of a connection (src/hotline/client and src/hotline/server).
pub mod Client
pub mod Server
pub mod Answers
pub mod Establish
pub mod Parts
