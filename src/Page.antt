-- ===== src/Page.antt =====
-- Pages and page tokens: api/pagination.go and service/paginate.go. The definitions are those of
-- Page/Defs; the other modules are about them.
mod Defs
pub mod Token
pub mod Serve
pub mod Loop
pub mod Size
pub mod Slice
pub mod Bounded
pub mod Database
pub mod Source
mod Tests
unfoldable pub use Defs.*
