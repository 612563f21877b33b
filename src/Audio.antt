-- ===== src/Audio.antt =====
-- Audio (internal/audio): the ingress buffers with voice activity, and the downlink pacer.
mod Tests
pub mod Ingress
pub mod Pacer
pub mod Wav
