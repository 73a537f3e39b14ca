-- ===== src/Benchmark/Clock.antt =====
-- The time that a benchmark measures.
use lsmio.Base.{ℕ, ◌-◌, ◌≡◌, refl, Bool, true, false, Option, none, some, List, [], ◌∷◌, Bytes}
use lsmio.Benchmark.{Benchmark, Iteration, start, stop, sofar, duration}

-- What a program may call, with the clock's reading.
pub data Call : Type 0 where
  starts : ℕ → Call
  stops : Bool → ℕ → Call

-- A call that throws changes nothing.
abbrev kept {ℓ} : {A : Type ℓ} → A → Option A → A
kept old none = old
kept old (some a) = a

-- The times that count: of the starts those of a benchmark that is not running, of the stops those
-- of a running one.
unfoldable pub last_times : Bool → ℕ → ℕ → List Call → Bool × ℕ × ℕ
last_times running t u [] = (running, t, u)
last_times true t u (starts now ∷ calls) = last_times true t u calls
last_times false t u (starts now ∷ calls) = last_times true now u calls
last_times true t u (stops idempotent now ∷ calls) = last_times false t now calls
last_times false t u (stops idempotent now ∷ calls) = last_times false t u calls

unfoldable pub measured : Bool × ℕ × ℕ → ℕ → Option ℕ × Option ℕ
measured (true, t, u) now = (some (now - t), none)
measured (false, t, u) now = (none, some (u - t))

module _ {D : Type 0} where
  unfoldable pub run : Benchmark D → List Call → Benchmark D
  run b [] = b
  run b (starts now ∷ calls) = run (kept b (start b now)) calls
  run b (stops idempotent now ∷ calls) = run (kept b (stop b idempotent now)) calls

  run_from :
      (running : Bool) (t u : ℕ) (iterations : List (Bytes × Iteration D)) (calls : List Call)
      (now : ℕ)
      → let b : Benchmark D = record {
        is_started = running;
        start_time = t;
        stop_time = u;
        iterations = iterations;
      } in
        (sofar (run b calls) now, duration (run b calls))
        ≡ measured (last_times running t u calls) now
  unfolding run last_times measured start stop sofar duration
  run_from true t u iterations [] now = refl
  run_from false t u iterations [] now = refl
  run_from true t u iterations (starts at ∷ calls) now = run_from true t u iterations calls now
  run_from false t u iterations (starts at ∷ calls) now = run_from true at u iterations calls now
  run_from true t u iterations (stops idempotent at ∷ calls) now =
      run_from false t at iterations calls now
  run_from false t u iterations (stops true at ∷ calls) now =
      run_from false t u iterations calls now
  run_from false t u iterations (stops false at ∷ calls) now =
      run_from false t u iterations calls now

  -- After any calls of start and stop, throwing or not, sofar and duration give the time since
  -- the last start that took effect, or the time between the last start and stop that took
  -- effect, and throw in the other state.
  pub run-measured :
      (b : Benchmark D) (calls : List Call) (now : ℕ)
      → (sofar (run b calls) now, duration (run b calls))
        ≡ measured (last_times b.is_started b.start_time b.stop_time calls) now
  run-measured b calls now = run_from b.is_started b.start_time b.stop_time b.iterations calls now
