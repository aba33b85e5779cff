-- ===== src/Core/Bus.antt =====
-- core/event_bus.hpp: EventBus. Handlers are the values of a type that the program chooses, with the
-- effect of a call as an argument: it may subscribe further handlers, publish, and throw.
pub mod Order
mod Examples
use yoru_speech.Common.{ℕ, ◌==◌, Bool, List, [], ◌∷◌, ◌++◌, Option, none, some, if◌then◌else◌}

-- std::type_index
abbrev pub TypeIndex : Type 0
TypeIndex = ℕ

-- handlers_, an unordered_map.
abbrev pub Bus : Type 0 → Type 0
Bus Handler = List (TypeIndex × List Handler)

-- The bus and the rest of the program's state.
pub record World (Handler State : Type 0) : Type 0 where
  pub bus : Bus Handler
  pub state : State

pub data Outcome (Handler State : Type 0) : Type 0 where
  returned thrown : World Handler State → Outcome Handler State

module _ {Handler : Type 0} where
  unfoldable pub find : TypeIndex → Bus Handler → Option (List Handler)
  find type [] = none
  find type ((t, handlers) ∷ bus) =
      let later = find type bus in if t == type then some handlers else later

  -- handlers_[type].push_back(handler)
  unfoldable pub subscribe : TypeIndex → Handler → Bus Handler → Bus Handler
  subscribe type handler [] = (type, handler ∷ []) ∷ []
  subscribe type handler ((t, handlers) ∷ bus) =
      let later = subscribe type handler bus in
      if t == type then (t, handlers ++ handler ∷ []) ∷ bus else (t, handlers) ∷ later

module _ {Handler Event State : Type 0}
    (call : Handler → Event → World Handler State → Outcome Handler State) where
  -- The loop over the copy of the handlers; an exception ends it.
  unfoldable pub call_all : List Handler → Event → World Handler State → Outcome Handler State
  call_all [] event w = returned w
  call_all (handler ∷ handlers) event w = elim (call handler event w) [
    | returned w' ↦ call_all handlers event w'
    | thrown w' ↦ thrown w'
  ]

  dispatch : Option (List Handler) → Event → World Handler State → Outcome Handler State
  unfolding call_all
  dispatch none event w = returned w
  dispatch (some handlers) event w = call_all handlers event w

  unfoldable pub publish : (Event → TypeIndex) → Event → World Handler State → Outcome Handler State
  unfolding dispatch
  publish type_of event w = dispatch (find (type_of event) w.bus) event w
