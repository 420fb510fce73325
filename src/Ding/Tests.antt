-- ===== src/Ding/Tests.antt =====
-- Four seconds of the program, in a loop that calls the function in each.
use yu.Prelude.{ℕ, zero, suc, ◌≡◌, refl, Bool, true, false, if◌then◌else◌, arith}
use yu.Prelude.Calls.{count}
use yu.Prelude.Int.{ℤ, is_zero}
use yu.Prelude.Trace.{Run, ◌>>=◌, pure, done, fault}
use yu.Ding.{Answers, Event, looping, main, send_ding}
use yu.Ding.Ticks.{Timeouts, is_new, is_sent, ticks-fault}

abbrev answers : Answers
answers = record { bus = 5; message = 9 }

abbrev every_second : Run Event ℤ → ℕ → Run Event Bool
every_second f zero = pure true
every_second f (suc n) = f >>= λ again. if is_zero again then pure false else every_second f n

abbrev loop : Timeouts
loop = record { ticks = every_second; ticks_none = λ f. refl; ticks_next = λ f n. refl }

ticks-fault_example :
    ((main answers).outcome ≡ done (looping 5))
    × ((loop.ticks (send_ding answers 5) 4).outcome ≡ fault)
    × (count is_new (loop.ticks (send_ding answers 5) 4).calls ≡ 1)
    × (count is_sent (loop.ticks (send_ding answers 5) 4).calls ≡ 0)
ticks-fault_example = ticks-fault loop answers 3 (ground arith)
