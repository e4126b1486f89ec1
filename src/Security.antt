-- ===== src/Security.antt =====
-- Who may call the server: its cookies and its sessions.
pub mod Cookies
pub mod Auth
