-- ===== src/Daemon/Main/Notifier/Texts.antt =====
-- What the notifications say, and when.
use family_com.Daemon.Main.Notifier.{Notifier}
