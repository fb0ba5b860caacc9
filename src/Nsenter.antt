-- ===== src/Nsenter.antt =====
-- Package nsenter: what the agent does in the namespaces of a process.
pub mod Mounts
pub mod Personality
pub mod Remounts
pub mod Message
pub mod Agent
pub mod Exchange
pub mod Send
