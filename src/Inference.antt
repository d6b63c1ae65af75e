-- ===== src/Inference.antt =====
-- src/inference/: the pure parts of the model broker's flow control.
pub mod RateLimit
