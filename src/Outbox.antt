-- ===== src/Outbox.antt =====
-- The worker's side of the notification outbox: internal/service/outbox_worker.go (`Worker`), and
-- its repository, internal/repository/postgres/notification_outbox_repository.go (`Queue`).
pub mod Queue
pub mod Lease
pub mod Worker
pub mod Attempts
pub mod Budget
