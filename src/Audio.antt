-- ===== src/Audio.antt =====
-- domains/audio: the capture device, the recording and the recording manager.
pub mod Recording
pub mod Device
pub mod Recorder
mod Examples
