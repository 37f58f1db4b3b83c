-- ===== src/Todo/Date/Again.antt =====
-- todotool/todo.go: the reminders are read again as they were written back.
use cfg.Text.{Text}
