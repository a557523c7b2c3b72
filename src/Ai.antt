-- ===== src/Ai.antt =====
-- The ai service: the tracker that notices a concealed object, and who is in front of a camera.
pub mod Concealment
pub mod Presence
