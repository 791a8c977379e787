-- ===== src/Retry/Tests.antt =====
-- A stream that drops after its usage, and a second one that drops after output.
use parrot_coder.Base.{ℕ, ◌≡◌, refl, true, false, List, [], ◌∷◌}
use parrot_coder.Retry.Stream.{
  EventType, usage, output, Event, Tagged, reopened, Answer, got, dropped, start, buffer_event,
  emit, reopen, retry_overload, receive_event, receive_error, ask, pass, run,
}
use parrot_coder.Retry.Origin.{Single, run-Single}

abbrev event : EventType → ℕ → Event
event type body = record { type = type; overloaded = false; body = body }

abbrev answers : List Answer
answers =
    got (event usage 1) (reopened 0)
    ∷ dropped true false false (reopened 0)
    ∷ got (event usage 2) (reopened 0)
    ∷ got (event output 3) (reopened 0)
    ∷ got (event output 4) (reopened 0)
    ∷ got (event output 4) (reopened 0)
    ∷ got (event output 4) (reopened 0)
    ∷ dropped true false false (reopened 0)
    ∷ []

abbrev tagged : EventType → ℕ → Tagged
tagged type body = record { event = event type body; origin = 1 }

-- The usage of the first stream is not given, and the second is not opened again after output.
second_stream :
    (run answers (start 0)).delivered ≡ tagged usage 2 ∷ tagged output 3 ∷ tagged output 4 ∷ []
unfolding run pass ask receive_event receive_error retry_overload reopen emit buffer_event
second_stream = refl

run-Single_example : Single (run answers (start 0))
run-Single_example = run-Single 0 answers
