-- ===== src/Business.antt =====
-- The pages for businesses: pages/b2b/users.tsx and dashboard.tsx, components/b2b/header.tsx, and
-- connect-app.tsx and drawer_security.tsx of pages/connect-app.
pub mod Users
pub mod Keys
pub mod Connect
pub mod Services
pub mod Dashboard
pub mod Overview
