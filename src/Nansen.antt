-- ===== src/Nansen.antt =====
-- internal/nansen: the budget-aware, cached, rate-limited client of the Nansen API.
mod Tests
pub mod Endpoints
pub mod Headers
pub mod Budget
pub mod RateLimit
pub mod Client
pub mod Cache
pub mod Wire
pub mod CallLog
