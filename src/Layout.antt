-- ===== src/Layout.antt =====
-- frontend/src/components/Layout.tsx: the drawer of the narrow layout (Layout/Drawer) and the
-- theme (Layout/Theme).
pub mod Drawer
pub mod Theme
pub mod Shell
