-- ===== src/Examples.antt =====
-- Runs of the modelled code at concrete inputs.
pub mod Values
pub mod Percent
pub mod Texts
pub mod Server
pub mod Files
pub mod Edits
pub mod Network
pub mod Submissions
pub mod Runs
pub mod Pages
pub mod Views
