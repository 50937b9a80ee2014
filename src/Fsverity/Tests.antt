-- ===== src/Fsverity/Tests.antt =====
-- Runs of authfs over a file in memory, with a stand-in for SHA-256, and the theorems at inputs.
mod Writing
mod Serving
mod Reading
