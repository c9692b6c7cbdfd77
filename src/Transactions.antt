-- ===== src/Transactions.antt =====
-- The transaction of a request: internal/middleware/uow.go, internal/httpx/errors.go and the
-- queues of internal/infra/db (before_commit.go, after_commit.go, uow.go).
pub mod Queues
pub mod UnitOfWork
pub mod Atomicity
mod Tests
