-- ===== src/Retry/Stream.antt =====
-- retryStream. A call of Next is the passes of its loop: one that takes from the queue, or one that
-- asks the open stream. The delays are left out; what they are for, the end of the context, is kept.
use parrot_coder.Base.{
  ℕ, suc, ◌+◌, ◌-◌, min, Bool, true, false, not, ◌&&◌, ◌||◌, List, [], ◌∷◌, ◌++◌, ◌==◌, leb,
  if◌then◌else◌, is_empty,
}

pub data EventType : Type 0 where
  usage router_metadata provider_error output : EventType

-- `overloaded` tells of a provider error that is an engine overload, `body` is the rest.
pub record Event : Type 0 where
  pub type : EventType
  pub overloaded : Bool
  pub body : ℕ

-- An event with the number of the stream that it came from.
pub record Tagged : Type 0 where
  pub event : Event
  pub origin : ℕ

-- How an attempt to open the stream again ends; the header retries may use the overload budget too.
pub data Reopening : Type 0 where
  reopened : ℕ → Reopening
  open_failed wait_ended : Reopening

-- What the open stream gives, with what happens if it is opened again.
pub data Answer : Type 0 where
  got : Event → Reopening → Answer
  dropped : (retryable eof context_ended : Bool) → Reopening → Answer

-- `stream` counts the streams that were opened after the first, `delivered` is what Next has returned.
pub record State : Type 0 where
  pub stream : ℕ
  pub remaining : ℕ
  pub attempt : ℕ
  pub overloads : ℕ
  pub output_emitted : Bool
  pub buffered : List Tagged
  pub queued : List Tagged
  pub delivered : List Tagged

abbrev pub stream_max_retries : ℕ
stream_max_retries = 5

abbrev pub overload_max_retries : ℕ
overload_max_retries = 5

-- The first stream is open; opening it may have used the overload budget.
abbrev pub start : ℕ → State
start used = record {
  stream = 0;
  remaining = stream_max_retries;
  attempt = 0;
  overloads = min overload_max_retries used;
  output_emitted = false;
  buffered = [];
  queued = [];
  delivered = [];
}

abbrev pub is_bookkeeping : Event → Bool
is_bookkeeping e = elim e.type [
  | usage ↦ true
  | router_metadata ↦ true
  | provider_error ↦ false
  | output ↦ false
]

abbrev pub same_type : EventType → EventType → Bool
same_type usage usage = true
same_type router_metadata router_metadata = true
same_type _ _ = false

-- bufferBookkeeping: the newest of each type, at the place of the first.
unfoldable pub buffer_event : Tagged → List Tagged → List Tagged
buffer_event t [] = t ∷ []
buffer_event t (b ∷ bs) =
    let rest = buffer_event t bs in if same_type b.event.type t.event.type then t ∷ bs else b ∷ rest

-- An event that is no bookkeeping, or follows output: it is returned behind what is buffered.
unfoldable pub emit : Tagged → State → State
emit t s =
    if is_empty s.buffered
    then record s { output_emitted = true; delivered = s.delivered ++ t ∷ [] }
    else record s { output_emitted = true; queued = s.buffered ++ t ∷ []; buffered = [] }

-- The new stream; an attempt that fails is an error of Next.
unfoldable pub reopen : Reopening → State → State
reopen (reopened used) s = record s {
  stream = suc s.stream;
  overloads = min overload_max_retries (s.overloads + used);
  buffered = [];
}
reopen open_failed s = s
reopen wait_ended s = s

-- retryOverload: without budget the provider error is returned like output.
unfoldable pub retry_overload : Tagged → Reopening → State → State
retry_overload t r s =
    if leb overload_max_retries s.overloads
    then emit t s
    else reopen r (record s { overloads = suc s.overloads })

unfoldable pub receive_event : Tagged → Reopening → State → State
receive_event t r s =
    if not s.output_emitted && is_bookkeeping t.event
    then record s { buffered = buffer_event t s.buffered }
    else if not s.output_emitted && t.event.overloaded
    then retry_overload t r s
    else emit t s

-- An error of the stream.
unfoldable pub receive_error : (retryable eof context_ended : Bool) → Reopening → State → State
receive_error retryable eof context_ended r s =
    if s.output_emitted || s.remaining == 0 || context_ended || not retryable
    then s
    else if eof
    then record s { queued = s.buffered; buffered = [] }
    else reopen r (record s { buffered = []; remaining = s.remaining - 1; attempt = suc s.attempt })

unfoldable pub ask : Answer → State → State
ask (got e r) s = receive_event (record { event = e; origin = s.stream }) r s
ask (dropped retryable eof context_ended r) s = receive_error retryable eof context_ended r s

-- A pass of the loop: the queue goes first, and then the stream is not asked.
unfoldable pub pass : Answer → State → List Tagged → State
pass answer s [] = ask answer s
pass answer s (q ∷ qs) = record s { queued = qs; delivered = s.delivered ++ q ∷ [] }

unfoldable pub run : List Answer → State → State
run [] s = s
run (a ∷ answers) s = run answers (pass a s s.queued)
