-- ===== src/Tests/Common.antt =====
-- The timers and the message queue at concrete inputs.
use srs_ue.Prelude.{ℕ, ◌<◌, ◌≡◌, refl, true, false, [], ◌∷◌, none, some, arith, ◌%◌, ◌^◌}
use srs_ue.Common.Timers.{Timer, Timers, new_timer, run, configure, is_running, is_expired}
use srs_ue.Common.Timers.Expiry.{steps, aged, steps-run}
use srs_ue.Common.MsgQueue.{MsgQueue, new, write, read}
use srs_ue.Common.MsgQueue.Fifo.{Holds, put_last, Written, Taken, write_refines, read_refines}

abbrev started : Timer
started = run (configure 7 3 (new_timer 0))

steps-run_example :
    (steps 5 started ≡ (aged 3 started 5, 1))
    × (is_running (steps 5 started).0 ≡ false)
    × (is_expired (steps 5 started).0 ≡ true)
unfolding run srs_ue.Common.Timers.Expiry.period
steps-run_example = steps-run 5 7 3 (new_timer 0) (omega arith)

-- Two timers, of which the first fires at the next step.
abbrev due : Timer
due = record { id = 0; callback = some 9; timeout = 4; counter = 3; running = true }

abbrev idle_one : Timer
idle_one = record { id = 1; callback = none; timeout = 0; counter = 0; running = false }

abbrev pair : Timers
pair = record { nof_timers = 2; next_timer = 0; timer_list = due ∷ idle_one ∷ [] }

-- A queue of two messages, each as long as its number.
abbrev wide : (a : ℕ) → a % 1000 < 2 ^ 32
wide a = omega arith

abbrev bytes_of : ℕ → ℕ
bytes_of a = a % 1000

abbrev empty : MsgQueue ℕ
empty = new 2

abbrev one_message : MsgQueue ℕ
one_message = record {
  buf = some 5 ∷ none ∷ [];
  capacity = 2;
  unread = 1;
  unread_bytes = 5;
  head = 1;
  tail = 0;
}

abbrev one_message-Holds : Holds bytes_of one_message (5 ∷ [])
one_message-Holds = record {
  room = omega arith;
  some_room = omega arith;
  in_range = omega arith;
  small = omega arith;
  counted = refl;
  fits = omega arith;
  behind = refl;
  bytes = refl;
  slots = (refl, tt);
}

write_refines_example :
    Written bytes_of (write bytes_of 8 one_message) (put_last bytes_of 2 8 (5 ∷ []))
write_refines_example = write_refines bytes_of 8 one_message (5 ∷ []) one_message-Holds

read_refines_example : Taken bytes_of (read bytes_of one_message) (some (5, []))
read_refines_example = read_refines bytes_of wide one_message (5 ∷ []) one_message-Holds
