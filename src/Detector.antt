-- ===== src/Detector.antt =====
-- The tasks of eigerApp/src/eigerDetector.cpp.
pub mod Files
pub mod Pipeline
mod Tests
pub mod Control
