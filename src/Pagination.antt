-- ===== src/Pagination.antt =====
-- Page numbers: internal/pkg/pagination/pagination.go.
pub mod Params
pub mod Pages
mod Tests
