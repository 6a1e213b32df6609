-- ===== src/Todo.antt =====
-- backend/todo-service: tasks behind a gRPC service, each owned by a user.
pub mod Entity
pub mod Repository
pub mod Service
pub mod Server
