-- ===== src/Hello.antt =====
-- dbus/hello.c: a program that shows one notification.
mod Protocol
use yu.Prelude.{ℕ, List, [], ◌∷◌, ◌++◌}
use yu.Prelude.Int.{ℤ, pos}
use yu.Prelude.CString.{codes}
use yu.Prelude.Trace.{Run, ◌>>=◌, ◌>>◌, pure, call, ask, run, after, and_then, done}

-- A notification is the address that the library gives.
pub data Event : Type 0 where
  notify_init : List ℕ → Event
  notify_notification_new : List ℕ → List ℕ → List ℕ → Event
  notify_notification_show : ℕ → Event
  g_object_unref : ℕ → Event
  notify_uninit : Event

-- `hello` is the notification that `notify_notification_new` gives.
pub main : ℕ → Run Event ℤ
main hello = do
  call (notify_init (codes "Hello world!"))
  given ←
      ask
        (notify_notification_new (codes "Hello world") (codes "This is an example notification.")
          (codes "dialog-information"))
        hello
  call (notify_notification_show given)
  call (g_object_unref given)
  call notify_uninit
  pure (pos 0)
