-- ===== src/Models.antt =====
-- The data that the components exchange (app/common/enums.py, app/models).
pub mod Enums
pub mod Book
pub mod Order
pub mod Opportunity
pub mod Hedge
pub use Enums.*
pub use Book.*
pub use Order.*
pub use Opportunity.*
pub use Hedge.*
