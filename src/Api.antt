-- ===== src/Api.antt =====
-- frontend/src/lib/api.ts and frontend/src/app/page.tsx: the client of every page, and the session.
pub mod Client
pub mod Login
