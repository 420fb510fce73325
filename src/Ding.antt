-- ===== src/Ding.antt =====
-- dbus/dbus-ding-send.c: a program that sends a signal on the session bus once a second.
pub mod Ticks
mod Tests
use yu.Prelude.{
  ℕ, zero, suc, ◌+◌, ◌*◌, ◌^◌, Option, none, some, List, [], ◌∷◌, ◌++◌, ◌==◌, if◌then◌else◌, take,
}
use yu.Prelude.CString.{codes}
use yu.Prelude.Int.{ℤ, pos}
use yu.Prelude.Trace.{Run, ◌>>=◌, ◌>>◌, pure, call, ask, oops, run, after, and_then, done, fault}

-- A bus and a message are the addresses that the library gives, and so is the text that is appended;
-- text that is printed is a list of bytes.
pub data Event : Type 0 where
  main_loop_new error_init : Event
  bus_get : ℕ → Event
  g_warning error_free : Event
  setup_with_g_main : ℕ → Event
  timeout_add : ℕ → ℕ → Event
  main_loop_run : Event
  new_signal : ℕ → Event
  append_string : ℕ → ℕ → Event
  send : ℕ → ℕ → Event
  unref : ℕ → Event
  g_print : List ℕ → Event

-- What the libraries answer; 0 is a null pointer.
pub record Answers : Type 0 where
  pub bus : ℕ
  pub message : ℕ

-- The literal in memory.
abbrev pub literal : List ℕ
literal = codes "ding!" ++ (0 ∷ [])

-- The bytes of an object, from its start, as one word, the lowest first. To read more bytes than the
-- object has is a fault.
unfoldable pub read_word : ℕ → List ℕ → Run Event ℕ
read_word zero object = pure 0
read_word (suc n) [] = oops
read_word (suc n) (b ∷ object) = do high ← read_word n object; pure (b + 256 * high)

-- `dbus_message_append_args` wants a message, and for a string the address of a pointer to its text,
-- of eight bytes, which it reads; what it is given is the address of the literal itself.
append_args : ℕ → List ℕ → Run Event (Unit {0})
unfolding read_word
append_args message object =
    if message == 0 then oops else (do text ← read_word 8 object; call (append_string message text))

-- It returns TRUE.
pub send_ding : Answers → ℕ → Run Event ℤ
unfolding append_args
send_ding a bus = do
  message ← ask (new_signal a.message) a.message
  append_args message literal
  call (send bus message)
  call (unref message)
  call (g_print (codes "ding!\n"))
  pure (pos 1)

-- `main` up to the loop that then calls `send_ding`: with the bus that the loop works for, or with
-- the status that it returns.
pub data Start : Type 0 where
  returned : ℤ → Start
  looping : ℕ → Start

pub main : Answers → Run Event Start
main a = do
  call main_loop_new
  call error_init
  bus ← ask (bus_get a.bus) a.bus
  if bus == 0 then (do call g_warning; call error_free; pure (returned (pos 1))) else do
    call (setup_with_g_main bus)
    call (timeout_add 1000 bus)
    call main_loop_run
    pure (looping bus)
