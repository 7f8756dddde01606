-- ===== src/Classifier.antt =====
-- internal/classifier: the cold path.
pub mod Confidence
pub mod Classify
pub mod Params
pub mod Features
pub mod Profile
pub mod Pipeline
pub mod Promises
pub mod Manager
pub mod Worker
pub mod Fleet
