-- ===== src/Retry/Origin.antt =====
-- What a client of the stream sees.
use parrot_coder.Base.{ℕ, ◌+◌, ◌≤◌, List, arith, All}
use parrot_coder.Retry.Stream.{Answer, State, stream_max_retries, overload_max_retries, start, run}
use parrot_coder.Retry.Invariant.{FromStream, run-Inv, start-Inv}

-- What a client sees: every event that is no bookkeeping comes from the stream that is open now, so
-- that none is repeated by another stream, and at most ten streams follow the first.
pub record Single (s : State) : Type 0 where
  pub one_origin : All (FromStream s.stream) s.delivered
  pub few : s.stream ≤ stream_max_retries + overload_max_retries

-- Whatever the streams give and however reconnecting ends, all output that Next has returned comes
-- from the stream that is open now, and the streams that were opened after the first are at most the
-- two retry limits together.
pub run-Single : (used : ℕ) (answers : List Answer) → Single (run answers (start used))
run-Single used answers =
    let v = run-Inv answers (start used) (start-Inv used) in
    record { one_origin = v.delivered_from; few = omega (arith, v.few_streams, v.few_overloads) }
