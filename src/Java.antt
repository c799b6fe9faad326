-- ===== src/Java.antt =====
-- The exchange with the Java parser: lang/java/ipc and the messages of lang/java/pb.
pub mod Messages
pub mod Protocol
pub mod Converter
