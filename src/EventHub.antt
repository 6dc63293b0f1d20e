-- ===== src/EventHub.antt =====
-- apps/rdr_common/src/event_hub.rs: the hub, a map from keys to events that can be waited for. The
-- channels and the timer behind an event are a parameter: a world that holds all events, and
-- handles to them.
pub mod Laws
pub mod Event
pub mod Listen
pub mod World
mod Tests
use pvn_project.Base.{
  ℕ, ◌≡◌, Bool, true, false, List, [], ◌∷◌, Option, none, some, if◌then◌else◌, Eq, lookup, insert,
  remove,
}

-- `new` makes an event and starts its timeout; `alive` says that the event's task still listens to
-- its first channel; `send` sends on that channel.
pub record Events (W H D : Type 0) : Type 0 where
  pub new : W → H × W
  pub alive : H → W → Bool
  pub send : H → Option D → W → W

-- A new event has not yet timed out.
pub record EventsLaws {W H D : Type 0} (events : Events W H D) : Type 0 where
  pub new-alive : (w : W) → events.alive (events.new w).0 (events.new w).1 ≡ true

-- How `notify` ends: delivered, or with the data handed back.
pub data Notified (D : Type 0) : Type 0 where
  delivered : Notified D
  returned : D → Notified D

pub record EventHub (E H : Type 0) : Type 0 where
  pub listeners : List (E × H)

module _ {E W H D : Type 0} ⦃e : Eq E⦄ (events : Events W H D) where
  unfoldable pub create_event : EventHub E H → E → W → H × EventHub E H × W
  create_event hub event w =
      let (handle, w') = events.new w in
      (handle, record hub { listeners = insert event handle hub.listeners }, w')

  unfoldable pub get_or_create_event : EventHub E H → E → W → H × EventHub E H × W
  unfolding create_event
  get_or_create_event hub event w = elim (lookup event hub.listeners) [
    | some existing ↦
        if events.alive existing w then (existing, hub, w) else create_event hub event w
    | none ↦ create_event hub event w
  ]

  unfoldable pub has_event : EventHub E H → E → W → Bool
  has_event hub event w = elim (lookup event hub.listeners) [
    | some waitable ↦ events.alive waitable w
    | none ↦ false
  ]

  -- The entry goes, whether or not its event is alive.
  unfoldable pub notify : EventHub E H → E → D → W → Notified D × EventHub E H × W
  notify hub event value w = elim (lookup event hub.listeners) [
    | some waitable ↦
        let rest : EventHub E H = record { listeners = remove event hub.listeners } in
        if events.alive waitable w
        then (delivered, rest, events.send waitable (some value) w)
        else (returned value, rest, w)
    | none ↦ (returned value, hub, w)
  ]

  -- The loop of `clear`: a `none` is the order to time out.
  unfoldable pub kill_all : List (E × H) → W → W
  kill_all [] w = w
  kill_all ((event, waitable) ∷ rest) w = kill_all rest (events.send waitable none w)

  unfoldable pub clear : EventHub E H → W → EventHub E H × W
  unfolding kill_all
  clear hub w = (record { listeners = [] }, kill_all hub.listeners w)
