-- ===== src/Question/Once.antt =====
-- The calls of Ask for one ID, counted, under each critical section.
use parrot_coder.Base.{
  each_key, suc, ◌+◌, ◌≡◌, ◌≤◌, inl, inr, refl, ap, false, List, ◌∷◌, Option, none, some, Text,
  text_eq, text_eq_refl, Option-cases, arith,
}
use parrot_coder.Question.Types.{Request, Response}
use parrot_coder.Question.Broker.{
  Pending, Outcome, Sent, World, start, find_request, find_sent, drop_pending, outcome_of,
  check_reply, settle_checked, settle_found, entered, returns,
}
use parrot_coder.Question.Counts.{
  bit, pendings, sents, found-pendings, missing-pendings, found-sents, pendings-drop_same,
  sents-drop_same, pendings-drop_other, sents-drop_other,
}

-- One ID: its call blocks just while the request is pending or its result is not received, and it
-- has been asked at most once and returned as often as it has stopped blocking.
pub record Counted (w : World) (id : Text) : Type 0 where
  pub open_or_sent : pendings id w.waiting ≡ pendings id w.pending + sents id w.channels
  pub blocks_or_returned : pendings id w.waiting + sents id w.returned ≡ pendings id w.asked
  pub asked_once : pendings id w.asked ≤ 1

pub start-Counted : (id : Text) → Counted start id
unfolding pendings sents
start-Counted id = record {
  open_or_sent = refl;
  blocks_or_returned = refl;
  asked_once = omega arith;
}

sents-cons_same :
    (id : Text) (outcome : Outcome) (ss : List Sent)
    → sents id (record { id = id; outcome = outcome } ∷ ss) ≡ suc (sents id ss)
unfolding sents
sents-cons_same id outcome ss = omega (arith, ap bit (text_eq_refl id))

sents-cons_other :
    (id other : Text) (outcome : Outcome) (ss : List Sent)
    → text_eq id other ≡ false
    → sents other (record { id = id; outcome = outcome } ∷ ss) ≡ sents other ss
unfolding sents
sents-cons_other id other outcome ss e = omega (arith, ap bit e)

pendings-cons_same :
    (id : Text) (request : Request) (ps : List Pending)
    → pendings id (record { id = id; request = request } ∷ ps) ≡ suc (pendings id ps)
unfolding pendings
pendings-cons_same id request ps = omega (arith, ap bit (text_eq_refl id))

pendings-cons_other :
    (id other : Text) (request : Request) (ps : List Pending)
    → text_eq id other ≡ false
    → pendings other (record { id = id; request = request } ∷ ps) ≡ pendings other ps
unfolding pendings
pendings-cons_other id other request ps e = omega (arith, ap bit e)

sent-Counted :
    (id other : Text) (outcome : Outcome) (request : Request) (w : World)
    → find_request id w.pending ≡ some request
    → Counted w other
    → Counted w id
    → Counted
        (record w {
          pending = drop_pending id w.pending;
          channels = record { id = id; outcome = outcome } ∷ w.channels;
        })
        other
sent-Counted id other outcome request w q h k =
    each_key (Counted _) id other
      (record {
        open_or_sent = omega (
          arith,
          k.open_or_sent,
          k.blocks_or_returned,
          k.asked_once,
          found-pendings id w.pending request q,
          pendings-drop_same id w.pending,
          sents-cons_same id outcome w.channels,
        );
        blocks_or_returned = k.blocks_or_returned;
        asked_once = k.asked_once;
      })
      (λ e. record {
        open_or_sent = omega (
          arith,
          h.open_or_sent,
          pendings-drop_other id other w.pending e,
          sents-cons_other id other outcome w.channels e,
        );
        blocks_or_returned = h.blocks_or_returned;
        asked_once = h.asked_once;
      })

pub settle_found-Counted :
    (id other : Text) (reply : Option Response) (w : World) (r : Option Request)
    → find_request id w.pending ≡ r
    → Counted w other
    → Counted w id
    → Counted (settle_found id reply w r).1 other
unfolding settle_found settle_checked
settle_found-Counted id other reply w none q h k = h
settle_found-Counted id other reply w (some request) q h k =
    elim (Option-cases (check_reply request reply)) [
      | inr (e, u) ↦ rw u h
      | inl u ↦ rw u (sent-Counted id other (outcome_of reply) request w q h k)
    ]

pub entered-Counted :
    (id other : Text) (request : Request) (w : World)
    → find_request id w.asked ≡ none
    → Counted w other
    → Counted w id
    → Counted (entered (record { id = id; request = request }) w) other
entered-Counted id other request w q h k =
    each_key (Counted _) id other
      (record {
        open_or_sent = omega (
          arith,
          k.open_or_sent,
          pendings-cons_same id request w.waiting,
          pendings-cons_same id request w.pending,
        );
        blocks_or_returned = omega (
          arith,
          k.blocks_or_returned,
          pendings-cons_same id request w.waiting,
          pendings-cons_same id request w.asked,
        );
        asked_once =
            omega (arith, missing-pendings id w.asked q, pendings-cons_same id request w.asked);
      })
      (λ e. record {
        open_or_sent = omega (
          arith,
          h.open_or_sent,
          pendings-cons_other id other request w.waiting e,
          pendings-cons_other id other request w.pending e,
        );
        blocks_or_returned = omega (
          arith,
          h.blocks_or_returned,
          pendings-cons_other id other request w.waiting e,
          pendings-cons_other id other request w.asked e,
        );
        asked_once = omega (arith, h.asked_once, pendings-cons_other id other request w.asked e);
      })

-- A call that blocks returns, and nothing of its request is left behind.
pub returns-Counted :
    (id other : Text) (outcome : Outcome) (request : Request) (w : World)
    → find_request id w.waiting ≡ some request
    → Counted w other
    → Counted w id
    → Counted (returns id outcome (record w { pending = drop_pending id w.pending })) other
returns-Counted id other outcome request w q h k =
    each_key (Counted _) id other
      (record {
        open_or_sent = omega (
          arith,
          pendings-drop_same id w.waiting,
          pendings-drop_same id w.pending,
          sents-drop_same id w.channels,
        );
        blocks_or_returned = omega (
          arith,
          k.blocks_or_returned,
          k.asked_once,
          found-pendings id w.waiting request q,
          pendings-drop_same id w.waiting,
          sents-cons_same id outcome w.returned,
        );
        asked_once = k.asked_once;
      })
      (λ e. record {
        open_or_sent = omega (
          arith,
          h.open_or_sent,
          pendings-drop_other id other w.waiting e,
          pendings-drop_other id other w.pending e,
          sents-drop_other id other w.channels e,
        );
        blocks_or_returned = omega (
          arith,
          h.blocks_or_returned,
          pendings-drop_other id other w.waiting e,
          sents-cons_other id other outcome w.returned e,
        );
        asked_once = h.asked_once;
      })

pub received-Counted :
    (id other : Text) (outcome : Outcome) (request : Request) (w : World)
    → find_request id w.waiting ≡ some request
    → find_sent id w.channels ≡ some outcome
    → Counted w other
    → Counted w id
    → Counted (returns id outcome w) other
received-Counted id other outcome request w q r h k =
    each_key (Counted _) id other
      (record {
        open_or_sent = omega (
          arith,
          k.open_or_sent,
          k.blocks_or_returned,
          k.asked_once,
          found-sents id w.channels outcome r,
          pendings-drop_same id w.waiting,
          sents-drop_same id w.channels,
        );
        blocks_or_returned = omega (
          arith,
          k.blocks_or_returned,
          k.asked_once,
          found-pendings id w.waiting request q,
          pendings-drop_same id w.waiting,
          sents-cons_same id outcome w.returned,
        );
        asked_once = k.asked_once;
      })
      (λ e. record {
        open_or_sent = omega (
          arith,
          h.open_or_sent,
          pendings-drop_other id other w.waiting e,
          sents-drop_other id other w.channels e,
        );
        blocks_or_returned = omega (
          arith,
          h.blocks_or_returned,
          pendings-drop_other id other w.waiting e,
          sents-cons_other id other outcome w.returned e,
        );
        asked_once = h.asked_once;
      })
