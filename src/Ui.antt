-- ===== src/Ui.antt =====
-- frontend/src/components/ui.tsx: the components that keep a state.
pub mod Toasts
pub mod Dialog
pub mod Select
pub mod Controls
pub mod Snapshot
