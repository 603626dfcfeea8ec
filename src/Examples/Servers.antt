-- ===== src/Examples/Servers.antt =====
-- The theorems on internal/server at concrete inputs.
use redis_course.Base.{
  ℕ, ◌+◌, ◌*◌, ◌⊎◌, ◌≡◌, refl, arith, true, none, List, [], ◌∷◌, ◌++◌, Bytes, codes, All, length,
  ltb,
}
use redis_course.Server.Pool.{
  WorkerPool, PoolConfig, new_worker_pool, moves, Event, submit, close, receive, start, finish,
  step, submit_job, receive_job, start_job, finish_job, close_jobs, Reaches, here, next,
}
use redis_course.Server.Pool.Runs.{
  places, submissions, InBounds, places-submissions, Reaches-InBounds,
}
use redis_course.Server.Pool.Drains.{IsWork, work_left, workers-progress}
use redis_course.Server.Drain.{
  ConnSet, Round, drain, done, close_idle, close_all, Ticks, Allowed, Closes, drain-empties,
  drain-spares,
}
use redis_course.Server.LineProtocol.{cut_line, process_lines, handle_lines, line_replies}
use redis_course.Server.LineProtocol.Wire.{
  lines_wire, line_feeds, handle_lines-concat, handle_lines-wire,
}
use redis_course.Server.Chunks.{concat}

-- Two workers with one slot each.
abbrev config : PoolConfig
config = record { worker_count = 2; connections_per_worker = 1; queue_size = 2 }

abbrev events : List Event
events = start 1 ∷ receive 1 ∷ close ∷ submit 7 ∷ submit 7 ∷ []

abbrev busy_pool : WorkerPool
busy_pool = record {
  jobs = 7 ∷ [];
  closed = true;
  workers =
      (record { held = none; running = [] }) ∷ (record { held = none; running = 7 ∷ [] }) ∷ [];
  handled = [];
}

busy_pool-Reaches : Reaches config (new_worker_pool config) events busy_pool
unfolding step submit_job receive_job start_job close_jobs new_worker_pool
busy_pool-Reaches =
    next (start 1)
      (next (receive 1) (next close (next (submit 7) (next (submit 7) here refl) refl) refl) refl)
      refl

places-submissions_example : places 7 busy_pool ≡ submissions 7 events
places-submissions_example = places-submissions config events busy_pool 7 busy_pool-Reaches

Reaches-InBounds_example : InBounds config busy_pool
Reaches-InBounds_example = Reaches-InBounds config events busy_pool busy_pool-Reaches

abbrev later_pool : WorkerPool
later_pool = record busy_pool {
  workers = (record { held = none; running = [] }) ∷ (record { held = none; running = [] }) ∷ [];
  handled = 7 ∷ [];
}

later_pool-Reaches : Reaches config busy_pool (finish 1 7 ∷ []) later_pool
unfolding step finish_job
later_pool-Reaches = next (finish 1 7) here refl

workers-progress_example :
    (length (finish 1 7 ∷ []) + work_left later_pool ≡ work_left busy_pool)
    × (length later_pool.workers ≡ length busy_pool.workers)
    × ((work_left later_pool ≡ 0)
        ⊎ ((e : Event) × (r : WorkerPool) × IsWork e × (step config e later_pool ≡ moves r)))
workers-progress_example =
    workers-progress config busy_pool later_pool (finish 1 7 ∷ []) (omega arith) (omega arith)
      later_pool-Reaches (tt, tt)

-- Connection 2 is busy in every round, and connection 1 in none.
abbrev rounds : ℕ → Round
rounds j = record { ended = []; busy = λ c. ltb 1 c; now = 100 + j * 5 }

abbrev open_conns : ConnSet
open_conns = record { conns = 1 ∷ 2 ∷ [] }

abbrev no_conns : ConnSet
no_conns = record { conns = [] }

-- Connection 1 is closed in the first round, and connection 2 in the third, past the deadline.
abbrev drain_calls : Closes
drain_calls = (2, 2) ∷ (1, 0) ∷ []

drains : drain 100 8 rounds 3 open_conns ≡ done no_conns drain_calls
unfolding drain close_idle close_all
drains = refl

rounds-Ticks : Ticks 100 8 5 rounds
rounds-Ticks j = omega arith

drain-empties_example :
    (t : ConnSet) × (calls : Closes) × (drain 100 8 rounds 3 open_conns ≡ done t calls)
    × (t.conns ≡ [])
drain-empties_example = drain-empties 100 8 5 rounds 2 open_conns rounds-Ticks (omega arith)

drain-spares_example : All (Allowed 100 8 rounds) drain_calls
drain-spares_example = drain-spares 100 8 rounds 3 open_conns no_conns drain_calls drains

abbrev reads : List Bytes
reads = codes "ab\nc" ∷ codes "d\n\ne" ∷ []

nothing_waits : cut_line [] ≡ none
unfolding cut_line
nothing_waits = refl

handle_lines-concat_example : handle_lines reads [] ≡ process_lines ([] ++ concat reads)
handle_lines-concat_example = handle_lines-concat reads [] nothing_waits

handle_lines-wire_example :
    (lines_wire (handle_lines reads []).0 ++ (handle_lines reads []).1 ≡ concat reads)
    × (cut_line (handle_lines reads []).1 ≡ none)
    × (length (line_replies (handle_lines reads []).0) ≡ 3 * line_feeds (concat reads))
handle_lines-wire_example = handle_lines-wire reads
