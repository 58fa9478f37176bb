-- ===== src/Router/Passwords.antt =====
-- Two lines that belong together: a command that asks for a password, and the password.
use epic_kfc.Router.Kept.{Kept}
