-- ===== src/Status/Threads/Process.antt =====
-- The three threads of pid_status.c together: the orders in which their calls can be made.
pub mod Overrun
use yu.Prelude.{
  ◌≡◌, Bool, true, false, not, ◌&&◌, ◌||◌, Option, none, some, List, [], ◌∷◌, if◌then◌else◌,
}
use yu.Status.{
  Thread, main_thread, func_thread, preempt_thread, Event, pthread_create, pthread_join,
}
use yu.Status.Threads.{Answers, calls_of}

-- What a call does to the threads.
pub data Effect : Type 0 where
  plain : Effect
  creates joins : Thread → Effect

abbrev pub effect : Event → Effect
effect (pthread_create t true) = creates t
effect (pthread_join t) = joins t
effect _ = plain

-- The calls that each thread has left; a thread that is not created yet has `none`.
pub record Process : Type 0 where
  pub main_left : List Event
  pub func_left : Option (List Event)
  pub preempt_left : Option (List Event)

abbrev pub process : List Event → Option (List Event) → Option (List Event) → Process
process m f p = record { main_left = m; func_left = f; preempt_left = p }

abbrev pub start : Answers → Process
start a = process (calls_of a main_thread) none none

-- One call. `main` alone creates and joins threads; `pthread_join` returns when its thread has no
-- call left.
pub data Step (a : Answers) : Process → Thread → Event → Process → Type 0 where
  main_calls :
      {e : Event} {m : List Event} {f p : Option (List Event)}
      → effect e ≡ plain
      → Step a (process (e ∷ m) f p) main_thread e (process m f p)
  main_creates_func :
      {e : Event} {m : List Event} {p : Option (List Event)}
      → effect e ≡ creates func_thread
      → Step a (process (e ∷ m) none p) main_thread e (process m (some (calls_of a func_thread)) p)
  main_creates_preempt :
      {e : Event} {m : List Event} {f : Option (List Event)}
      → effect e ≡ creates preempt_thread
      → Step a
          (process (e ∷ m) f none)
          main_thread
          e
          (process m f (some (calls_of a preempt_thread)))
  main_joins_func :
      {e : Event} {m : List Event} {p : Option (List Event)}
      → effect e ≡ joins func_thread
      → Step a (process (e ∷ m) (some []) p) main_thread e (process m (some []) p)
  main_joins_preempt :
      {e : Event} {m : List Event} {f : Option (List Event)}
      → effect e ≡ joins preempt_thread
      → Step a (process (e ∷ m) f (some [])) main_thread e (process m f (some []))
  func_calls :
      {e : Event} {m es : List Event} {p : Option (List Event)}
      → Step a (process m (some (e ∷ es)) p) func_thread e (process m (some es) p)
  preempt_calls :
      {e : Event} {m es : List Event} {f : Option (List Event)}
      → Step a (process m f (some (e ∷ es))) preempt_thread e (process m f (some es))

-- The calls of a stretch of time, each with its thread.
abbrev pub Trace : Type 0
Trace = List (Thread × Event)

infixr 5 ◌first◌
pub data Execution (a : Answers) : Process → Trace → Process → Type 0 where
  finish : {s : Process} → Execution a s [] s
  ◌first◌ :
      {s u v : Process} {t : Thread} {e : Event} {tr : Trace}
      → Step a s t e u
      → Execution a u tr v
      → Execution a s ((t, e) ∷ tr) v

abbrev pub same : Thread → Thread → Bool
same main_thread main_thread = true
same func_thread func_thread = true
same preempt_thread preempt_thread = true
same _ _ = false

-- The calls of one thread.
abbrev pub by : Thread → Trace → List Event
by t [] = []
by t ((u, e) ∷ tr) = if same t u then e ∷ by t tr else by t tr
