-- ===== src/Retry/Invariant.antt =====
-- The origin of events and the budgets of retries under each pass of the loop.
use parrot_coder.Base.{
  ℕ, suc, ◌+◌, ◌-◌, ◌≡◌, ◌≤◌, ◌⊎◌, inl, inr, refl, subst, Bool, true, false, not, ◌&&◌, ◌||◌, List,
  [], ◌∷◌, ◌++◌, ◌==◌, leb, Bool-cases, arith, is_empty, All, All-append, All-map,
}
use parrot_coder.Retry.Stream.{
  Tagged, Reopening, reopened, open_failed, wait_ended, Answer, got, dropped, State,
  stream_max_retries, overload_max_retries, start, is_bookkeeping, same_type, buffer_event, emit,
  reopen, retry_overload, receive_event, receive_error, ask, pass, run,
}

-- An event that is bookkeeping, or comes from this stream.
abbrev pub FromStream : ℕ → Tagged → Type 0
FromStream n t = (is_bookkeeping t.event ≡ true) ⊎ (t.origin ≡ n)

abbrev IsBook : Tagged → Type 0
IsBook t = is_bookkeeping t.event ≡ true

-- Nothing but bookkeeping before the first output.
abbrev Quiet : Bool → List Tagged → Type 0
Quiet true ts = Unit {0}
Quiet false ts = All IsBook ts

pub record Inv (s : State) : Type 0 where
  pub buffered_book : All IsBook s.buffered
  pub queued_from : All (FromStream s.stream) s.queued
  pub delivered_from : All (FromStream s.stream) s.delivered
  pub queued_quiet : Quiet s.output_emitted s.queued
  pub delivered_quiet : Quiet s.output_emitted s.delivered
  pub few_streams : s.stream + s.remaining ≤ stream_max_retries + s.overloads
  pub few_overloads : s.overloads ≤ overload_max_retries

IsBook-FromStream : (n : ℕ) (ts : List Tagged) → All IsBook ts → All (FromStream n) ts
IsBook-FromStream n ts a = All-map (λ t h. inl h) ts a

Quiet-IsBook : (b : Bool) (ts : List Tagged) → b ≡ false → Quiet b ts → All IsBook ts
Quiet-IsBook false ts h a = a
Quiet-IsBook true ts h a = ground arith

IsBook-Quiet : (b : Bool) (ts : List Tagged) → All IsBook ts → Quiet b ts
IsBook-Quiet true ts a = tt
IsBook-Quiet false ts a = a

IsBook-buffer_event :
    (t : Tagged) (bs : List Tagged) → IsBook t → All IsBook bs → All IsBook (buffer_event t bs)
unfolding buffer_event
IsBook-buffer_event t [] h a = (h, tt)
IsBook-buffer_event t (b ∷ bs) h a = elim (Bool-cases (same_type b.event.type t.event.type)) [
  | inl q ↦ rw q (h, a.1)
  | inr q ↦ rw q (a.0, IsBook-buffer_event t bs h a.1)
]

emit-Inv : (t : Tagged) (s : State) → t.origin ≡ s.stream → s.queued ≡ [] → Inv s → Inv (emit t s)
unfolding emit
emit-Inv t s h e v = elim (Bool-cases (is_empty s.buffered)) [
  | inl q ↦
      rw (emit, q)
        (record {
          buffered_book = v.buffered_book;
          queued_from = v.queued_from;
          delivered_from =
              All-append (FromStream s.stream) s.delivered (t ∷ []) v.delivered_from (inr h, tt);
          queued_quiet = tt;
          delivered_quiet = tt;
          few_streams = v.few_streams;
          few_overloads = v.few_overloads;
        })
  | inr q ↦
      rw (emit, q)
        (record {
          buffered_book = tt;
          queued_from =
              All-append (FromStream s.stream) s.buffered (t ∷ [])
                (IsBook-FromStream s.stream s.buffered v.buffered_book) (inr h, tt);
          delivered_from = v.delivered_from;
          queued_quiet = tt;
          delivered_quiet = tt;
          few_streams = v.few_streams;
          few_overloads = v.few_overloads;
        })
]

-- Before a new stream: nothing but bookkeeping has been given, and the budgets allow one more.
record Ready (s : State) : Type 0 where
  pub silent : s.output_emitted ≡ false
  pub inv : Inv s
  pub room : suc s.stream + s.remaining ≤ stream_max_retries + s.overloads

reopen-Inv : (r : Reopening) (s : State) → Ready s → Inv (reopen r s)
unfolding reopen
reopen-Inv (reopened used) s v = record {
  buffered_book = tt;
  queued_from =
      IsBook-FromStream (suc s.stream) s.queued
        (Quiet-IsBook _ s.queued v.silent v.inv.queued_quiet);
  delivered_from =
      IsBook-FromStream (suc s.stream) s.delivered
        (Quiet-IsBook _ s.delivered v.silent v.inv.delivered_quiet);
  queued_quiet = v.inv.queued_quiet;
  delivered_quiet = v.inv.delivered_quiet;
  few_streams = omega (arith, v.room, v.inv.few_overloads);
  few_overloads = omega arith;
}
reopen-Inv open_failed s v = v.inv
reopen-Inv wait_ended s v = v.inv

retry_overload-Inv :
    (t : Tagged) (r : Reopening) (s : State)
    → t.origin ≡ s.stream
    → s.queued ≡ []
    → s.output_emitted ≡ false
    → Inv s
    → Inv (retry_overload t r s)
unfolding retry_overload
retry_overload-Inv t r s h e o v = elim (Bool-cases (leb overload_max_retries s.overloads)) [
  | inl q ↦ rw (retry_overload, q) (emit-Inv t s h e v)
  | inr q ↦
      rw (retry_overload, q)
        (reopen-Inv r (record s { overloads = suc s.overloads })
          (record {
            silent = o;
            inv = record {
              buffered_book = v.buffered_book;
              queued_from = v.queued_from;
              delivered_from = v.delivered_from;
              queued_quiet = v.queued_quiet;
              delivered_quiet = v.delivered_quiet;
              few_streams = omega (arith, v.few_streams);
              few_overloads = ground (arith, q);
            };
            room = omega (arith, v.few_streams);
          }))
]

receive_event-Inv :
    (t : Tagged) (r : Reopening) (s : State)
    → t.origin ≡ s.stream
    → s.queued ≡ []
    → Inv s
    → Inv (receive_event t r s)
unfolding receive_event
receive_event-Inv t r s h e v = elim (Bool-cases (not s.output_emitted && is_bookkeeping t.event)) [
  | inl q ↦
      rw (receive_event, q)
        (record {
          buffered_book = IsBook-buffer_event t s.buffered (ground (arith, q)) v.buffered_book;
          queued_from = v.queued_from;
          delivered_from = v.delivered_from;
          queued_quiet = v.queued_quiet;
          delivered_quiet = v.delivered_quiet;
          few_streams = v.few_streams;
          few_overloads = v.few_overloads;
        })
  | inr q ↦ elim (Bool-cases (not s.output_emitted && t.event.overloaded)) [
    | inl u ↦ rw (receive_event, q, u) (retry_overload-Inv t r s h e (ground (arith, u)) v)
    | inr u ↦ rw (receive_event, q, u) (emit-Inv t s h e v)
  ]
]

receive_error-Inv :
    (retryable eof context_ended : Bool) (r : Reopening) (s : State)
    → s.queued ≡ []
    → Inv s
    → Inv (receive_error retryable eof context_ended r s)
unfolding receive_error
receive_error-Inv retryable eof context_ended r s e v =
    elim (Bool-cases (s.output_emitted || s.remaining == 0 || context_ended || not retryable)) [
      | inl q ↦ rw (receive_error, q) v
      | inr q ↦ elim (Bool-cases eof) [
        | inl u ↦
            rw (receive_error, q, u)
              (record {
                buffered_book = tt;
                queued_from = IsBook-FromStream s.stream s.buffered v.buffered_book;
                delivered_from = v.delivered_from;
                queued_quiet = IsBook-Quiet s.output_emitted s.buffered v.buffered_book;
                delivered_quiet = v.delivered_quiet;
                few_streams = v.few_streams;
                few_overloads = v.few_overloads;
              })
        | inr u ↦
            rw (receive_error, q, u)
              (reopen-Inv r
                (record s { buffered = []; remaining = s.remaining - 1; attempt = suc s.attempt })
                (record {
                  silent = ground (arith, q);
                  inv = record {
                    buffered_book = tt;
                    queued_from = v.queued_from;
                    delivered_from = v.delivered_from;
                    queued_quiet = v.queued_quiet;
                    delivered_quiet = v.delivered_quiet;
                    few_streams = omega (arith, v.few_streams);
                    few_overloads = v.few_overloads;
                  };
                  room = ground (arith, q, v.few_streams);
                }))
      ]
    ]

ask-Inv : (a : Answer) (s : State) → s.queued ≡ [] → Inv s → Inv (ask a s)
unfolding ask
ask-Inv (got event r) s e v =
    receive_event-Inv (record { event = event; origin = s.stream }) r s refl e v
ask-Inv (dropped retryable eof context_ended r) s e v =
    receive_error-Inv retryable eof context_ended r s e v

Quiet-tail : (b : Bool) (q : Tagged) (qs : List Tagged) → Quiet b (q ∷ qs) → Quiet b qs
Quiet-tail true q qs a = tt
Quiet-tail false q qs a = a.1

Quiet-move :
    (b : Bool) (q : Tagged) (qs ds : List Tagged)
    → Quiet b (q ∷ qs)
    → Quiet b ds
    → Quiet b (ds ++ q ∷ [])
Quiet-move true q qs ds a d = tt
Quiet-move false q qs ds a d = All-append IsBook ds (q ∷ []) d (a.0, tt)

pass-Inv : (a : Answer) (s : State) (qs : List Tagged) → s.queued ≡ qs → Inv s → Inv (pass a s qs)
unfolding pass
pass-Inv a s [] e v = ask-Inv a s e v
pass-Inv a s (q ∷ qs) e v =
    let from : All (FromStream s.stream) (q ∷ qs) =
      subst (λ (ts : List Tagged). All (FromStream s.stream) ts) e v.queued_from in
    let quiet : Quiet s.output_emitted (q ∷ qs) =
      subst (λ (ts : List Tagged). Quiet s.output_emitted ts) e v.queued_quiet in
    record {
      buffered_book = v.buffered_book;
      queued_from = from.1;
      delivered_from =
          All-append (FromStream s.stream) s.delivered (q ∷ []) v.delivered_from (from.0, tt);
      queued_quiet = Quiet-tail s.output_emitted q qs quiet;
      delivered_quiet = Quiet-move s.output_emitted q qs s.delivered quiet v.delivered_quiet;
      few_streams = v.few_streams;
      few_overloads = v.few_overloads;
    }

pub run-Inv : (answers : List Answer) (s : State) → Inv s → Inv (run answers s)
unfolding run
run-Inv [] s v = v
run-Inv (a ∷ answers) s v = run-Inv answers (pass a s s.queued) (pass-Inv a s s.queued refl v)

pub start-Inv : (used : ℕ) → Inv (start used)
start-Inv used = record {
  buffered_book = tt;
  queued_from = tt;
  delivered_from = tt;
  queued_quiet = tt;
  delivered_quiet = tt;
  few_streams = omega arith;
  few_overloads = omega arith;
}
