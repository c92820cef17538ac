-- ===== src/Chunking.antt =====
-- services/chunking.py: a parsed document is cut into overlapping chunks.
pub mod Split
pub mod Pack
pub mod Absorb
pub mod Document
pub mod Ink
pub mod Kept
pub mod Fragments
pub mod Bounds
pub mod Numbered
