-- ===== src/Event/Broker.antt =====
-- Broker: the ancestors of a session, and the projection of events onto their streams.
use parrot_coder.Base.{
  ℕ, zero, suc, List, [], ◌∷◌, Text, Bool, true, false, ◌||◌, if◌then◌else◌, any, drop, Option,
  none, some, text_eq, is_empty,
}
use parrot_coder.Event.Transient.{Event, Listener, publish}

abbrev pub seen : List Text → Text → Bool
seen route s = any (λ x. text_eq x s) route

-- The parent that the loop goes on to: it is there, named, and new.
unfoldable pub next_parent : Option Text → List Text → Option Text
next_parent none route = none
next_parent (some p) route = if is_empty p || seen route p then none else some p

module _ (parent : Text → Option Text) where
  -- The loop of ancestry: the sessions after `current`, with those seen; `none` is out of rounds.
  unfoldable pub climb : ℕ → Text → List Text → Option (List Text)
  unfolding next_parent
  climb zero current route = none
  climb (suc n) current route =
      if is_empty current then some [] else elim (next_parent (parent current) route) [
        | none ↦ some []
        | some p ↦ elim (climb n p (p ∷ route)) [ none ↦ none | some rest ↦ some (p ∷ rest) ]
      ]

  -- ancestry, with rounds for each session that has a child.
  unfoldable pub ancestry : ℕ → Text → Option (List Text)
  unfolding climb
  ancestry rounds origin = elim (climb rounds origin (origin ∷ [])) [
    | none ↦ none
    | some rest ↦ some (origin ∷ rest)
  ]

-- The envelope of a projection.
abbrev pub projected : Event → Event
projected e = record e { id = []; sequence = none; created_at = none }

-- The loop of project over the ancestors.
unfoldable pub project_each : List Text → Event → List Listener → List Listener
project_each [] e ls = ls
project_each (p ∷ ps) e ls = project_each ps e (publish p (projected e) false [] ls)

-- PublishEvent, for a session with these ancestors.
unfoldable pub publish_event : List Text → Event → Text → List Listener → List Listener
unfolding project_each
publish_event route e fresh ls =
    project_each (drop 1 route) e (publish e.session_id e true fresh ls)
