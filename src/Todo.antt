-- ===== src/Todo.antt =====
-- todotool/todo.go: reminders, tasks with blockers, and unread mail.
pub mod Date
pub mod Parse
pub mod Resolve
pub mod Subject
pub mod Mail
pub mod Checks
pub mod Network
pub mod Run
mod Tests
