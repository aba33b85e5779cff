-- ===== src/App.antt =====
-- app/main.cpp: the composition root.
pub mod Journal
pub mod Startup
pub mod Program
pub mod Loop
pub mod Main
mod Samples
mod Examples
