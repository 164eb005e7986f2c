-- ===== src/Auth.antt =====
-- Authentication: frontend/src/shared/stores/authStore.ts and the interceptors of
-- frontend/src/lib/axios.ts.
pub mod User
pub mod Client
pub mod Store
pub mod Interceptor
pub mod Events
pub mod Loading
pub mod Tokens
pub mod Signing
pub mod Refreshing
mod Tests
pub mod Forms
pub mod Pages
