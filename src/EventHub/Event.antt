-- ===== src/EventHub/Event.antt =====
-- apps/rdr_common/src/event_hub.rs: one event, its two channels and the task between them, as the
-- steps that callers, the task and the timer take. What the first channel's receiver gets from the
-- values that wait in it is a parameter; of the second, a value reaches those that have subscribed.
use pvn_project.Base.{
  Bool, true, false, List, [], ◌∷◌, ◌++◌, Option, none, some, if◌then◌else◌, map,
}

-- `listen`, before and after it returns.
pub data Listener (D : Type 0) : Type 0 where
  waiting : Listener D
  answered : Option D → Listener D

pub record Event (D : Type 0) : Type 0 where
  pub sent : List (Option D)
  pub ended : Bool
  pub listeners : List (Listener D)

-- The first channel's receiver: no value yet, a value, or an error.
pub data Received (D : Type 0) : Type 0 where
  pending : Received D
  value : Option D → Received D
  failed : Received D

pub data Step (D : Type 0) : Type 0 where
  sends : Option D → Step D
  listens : Step D
  polls : Bool → Step D

module _ {D : Type 0} where
  abbrev pub new_event : Event D
  new_event = record { sent = []; ended = false; listeners = [] }

  -- There is a receiver as long as the task runs.
  unfoldable pub alive : Event D → Bool
  alive e = if e.ended then false else true

  -- `notify` sends data, `kill` sends none; without a receiver nothing is sent.
  unfoldable pub send : Option D → Event D → Event D
  send v e = if e.ended then e else record e { sent = e.sent ++ (v ∷ []) }

  unfoldable pub notify : D → Event D → Event D
  unfolding send
  notify data_value e = send (some data_value) e

  unfoldable pub kill : Event D → Event D
  unfolding send
  kill e = send none e

  -- `listen`, up to its `await`.
  unfoldable pub listen : Event D → Event D
  listen e = record e { listeners = e.listeners ++ (waiting ∷ []) }

  unfoldable pub answer : Option D → Listener D → Listener D
  answer r waiting = answered r
  answer r (answered old) = answered old

  -- The end of the task: it sends the result on the second channel.
  unfoldable pub finish : Option D → Event D → Event D
  unfolding answer
  finish r e = record e { ended = true; listeners = map (answer r) e.listeners }

  -- What a poll of the task comes to, with what its receiver gives.
  unfoldable pub after_poll : Received D → Bool → Event D → Event D
  unfolding finish
  after_poll (value v) expired e = finish v e
  after_poll failed expired e = finish none e
  after_poll pending expired e = if expired then finish none e else e

  module _ (recv : List (Option D) → Received D) where
    -- The task is polled, before or after its timeout.
    unfoldable pub poll : Bool → Event D → Event D
    unfolding after_poll
    poll expired e = if e.ended then e else after_poll (recv e.sent) expired e

    unfoldable pub step : Step D → Event D → Event D
    unfolding send listen poll
    step (sends v) e = send v e
    step listens e = listen e
    step (polls expired) e = poll expired e

    unfoldable pub run : List (Step D) → Event D → Event D
    unfolding step
    run [] e = e
    run (s ∷ steps) e = run steps (step s e)
