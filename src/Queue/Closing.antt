-- ===== src/Queue/Closing.antt =====
-- src/queue/queue-manager.service.ts: closeWorkerGracefully. The promises that it awaits settle when
-- they like, and the timer may fire before that: the events come in any order.
pub mod Settles
use queue_system.Prelude.{Bool, true, false, List, [], ◌∷◌}

-- The 15 s timer.
pub data Timer : Type 0 where
  armed cleared fired : Timer

-- A call of `worker.close`: not made, made and pending, or settled either way.
pub data Close : Type 0 where
  unasked pending settled : Close

pub record Closing : Type 0 where
  pub timer : Timer
  pub graceful : Close
  pub forced : Close
  pub resolved : Bool

-- `worker.close()` settles, the timer's time has come, `worker.close(true)` settles.
pub data Event : Type 0 where
  graceful_settles time_comes forced_settles : Event

unfoldable pub close_worker_gracefully : Closing
close_worker_gracefully = record {
  timer = Timer.armed;
  graceful = Close.pending;
  forced = Close.unasked;
  resolved = false;
}

-- `clearTimeout(timer)`
abbrev pub clear_timeout : Timer → Timer
clear_timeout Timer.armed = Timer.cleared
clear_timeout t = t

unfoldable pub on_graceful : Close → Closing → Closing
on_graceful Close.pending c = record {
  timer = clear_timeout c.timer;
  graceful = Close.settled;
  forced = c.forced;
  resolved = true;
}
on_graceful _ c = c

unfoldable pub on_time : Timer → Closing → Closing
on_time Timer.armed c = record c { timer = Timer.fired; forced = Close.pending }
on_time _ c = c

unfoldable pub on_forced : Close → Closing → Closing
on_forced Close.pending c = record c { forced = Close.settled; resolved = true }
on_forced _ c = c

unfoldable pub step : Event → Closing → Closing
unfolding on_graceful on_time on_forced
step Event.graceful_settles c = on_graceful c.graceful c
step Event.time_comes c = on_time c.timer c
step Event.forced_settles c = on_forced c.forced c

abbrev pub run : List Event → Closing → Closing
run [] c = c
run (e ∷ rest) c = run rest (step e c)
