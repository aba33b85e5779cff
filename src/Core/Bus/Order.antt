-- ===== src/Core/Bus/Order.antt =====
-- Which handlers publish of event_bus.hpp calls, and in which order.
use yoru_speech.Common.{
  ◌==◌, ◌≡◌, refl, sym, ap, ◌∙◌, ◌⊎◌, inl, inr, Bool-cases, List, [], ◌∷◌, ◌++◌, append-nil,
  append_assoc, Option, none, some, if◌then◌else◌, Extends, arith,
}
use mathlib.Core.Path.{subst}
use yoru_speech.Core.Bus.{
  TypeIndex, Bus, World, Outcome, returned, thrown, find, subscribe, call_all, dispatch, publish,
}

module _ {Handler : Type 0} where
  -- A series of calls of subscribe.
  unfoldable pub subscribe_all : List (TypeIndex × Handler) → Bus Handler → Bus Handler
  subscribe_all [] bus = bus
  subscribe_all ((type, handler) ∷ calls) bus = subscribe_all calls (subscribe type handler bus)

  -- The handlers that were subscribed to one type, in order.
  abbrev pub subscribed_to : TypeIndex → List (TypeIndex × Handler) → List Handler
  subscribed_to type [] = []
  subscribed_to type ((t, handler) ∷ calls) =
      if t == type then handler ∷ subscribed_to type calls else subscribed_to type calls

  abbrev found : Option (List Handler) → List Handler
  found none = []
  found (some handlers) = handlers

  find-subscribe :
      (type t : TypeIndex) (handler : Handler) (bus : Bus Handler)
      → found (find type (subscribe t handler bus))
        ≡ found (find type bus) ++ (if t == type then handler ∷ [] else [])
  unfolding find subscribe
  find-subscribe type t handler [] = ground arith
  find-subscribe type t handler ((t', handlers) ∷ bus) = elim (Bool-cases (t' == t)) [
    | inl e ↦ rw e (ground (arith, e, append-nil handlers, append-nil (found (find type bus))))
    | inr e ↦ rw e (ground (arith, e, append-nil handlers, find-subscribe type t handler bus))
  ]

  find-subscribe_all :
      (type : TypeIndex) (calls : List (TypeIndex × Handler)) (bus : Bus Handler)
      → found (find type (subscribe_all calls bus))
        ≡ found (find type bus) ++ subscribed_to type calls
  unfolding subscribe_all
  find-subscribe_all type [] bus = sym (append-nil (found (find type bus)))
  find-subscribe_all type ((t, handler) ∷ calls) bus =
      find-subscribe_all type calls (subscribe t handler bus)
      ∙ rw (find-subscribe type t handler bus) (elim (Bool-cases (t == type)) [
        | inl e ↦
            rw e (append_assoc (found (find type bus)) (handler ∷ []) (subscribed_to type calls))
        | inr e ↦ rw (e, append-nil (found (find type bus))) refl
      ])

module _ {Handler Event State : Type 0}
    (call : Handler → Event → World Handler State → Outcome Handler State)
    (type_of : Event → TypeIndex) (trace : State → List Handler) where
  abbrev pub world : Outcome Handler State → World Handler State
  world (returned w) = w
  world (thrown w) = w

  -- All of the handlers were called, or the last one that was called threw.
  abbrev pub CallsInOrder : List Handler → List Handler → Outcome Handler State → Type 0
  CallsInOrder before handlers (returned w) = trace w.state ≡ before ++ handlers
  CallsInOrder before handlers (thrown w) =
      (called : List Handler) × (last : Handler) × Extends (called ++ last ∷ []) handlers
      × (trace w.state ≡ before ++ (called ++ last ∷ []))

  one_more :
      (before : List Handler) (handler : Handler) (handlers : List Handler)
      (o : Outcome Handler State)
      → CallsInOrder (before ++ handler ∷ []) handlers o
      → CallsInOrder before (handler ∷ handlers) o
  one_more before handler handlers (returned w) h = h ∙ append_assoc before (handler ∷ []) handlers
  one_more before handler handlers (thrown w) (called, last, (rest, p), h) = (
    handler ∷ called,
    last,
    (rest, ap (◌∷◌ handler) p),
    h ∙ append_assoc before (handler ∷ []) (called ++ last ∷ []),
  )

  Outcome-cases :
      (o : Outcome Handler State)
      → ((w : World Handler State) × (o ≡ returned w))
        ⊎ ((w : World Handler State) × (o ≡ thrown w))
  Outcome-cases (returned w) = inl (w, refl)
  Outcome-cases (thrown w) = inr (w, refl)

  module _
      (traced : (handler : Handler) (event : Event) (w : World Handler State)
        → trace (world (call handler event w)).state ≡ trace w.state ++ handler ∷ []) where
    call_all-CallsInOrder :
        (handlers : List Handler) (event : Event) (w : World Handler State)
        → CallsInOrder (trace w.state) handlers (call_all call handlers event w)
    unfolding call_all
    call_all-CallsInOrder [] event w = sym (append-nil (trace w.state))
    call_all-CallsInOrder (handler ∷ handlers) event w =
        elim (Outcome-cases (call handler event w)) [
          | inl (w', e) ↦
              rw (e, call_all)
                (one_more (trace w.state) handler handlers (call_all call handlers event w') (
                  subst (λ t. CallsInOrder t handlers (call_all call handlers event w'))
                    (sym (ap (λ o. trace (world o).state) e) ∙ traced handler event w)
                    (call_all-CallsInOrder handlers event w')))
          | inr (w', e) ↦
              rw (e, call_all)
                (
                  [],
                  handler,
                  (handlers, refl),
                  sym (ap (λ o. trace (world o).state) e) ∙ traced handler event w,
                )
        ]

    dispatch-CallsInOrder :
        (o : Option (List Handler)) (event : Event) (w : World Handler State)
        → CallsInOrder (trace w.state) (found o) (dispatch call o event w)
    unfolding dispatch
    dispatch-CallsInOrder none event w = sym (append-nil (trace w.state))
    dispatch-CallsInOrder (some handlers) event w = call_all-CallsInOrder handlers event w

    -- Whatever was subscribed in whatever order, and whatever the handlers subscribe while they run,
    -- publish calls the handlers that were subscribed to the event's type before it, each once, in
    -- the order of their subscription; an exception goes on to the caller right after the handler
    -- that threw it.
    pub publish-subscribe_all :
        (calls : List (TypeIndex × Handler)) (event : Event) (state : State)
        → CallsInOrder
            (trace state)
            (subscribed_to (type_of event) calls)
            (publish call type_of event (record { bus = subscribe_all calls []; state = state }))
    unfolding publish find
    publish-subscribe_all calls event state =
        subst
          (λ handlers.
            CallsInOrder (trace state) handlers
              (publish call type_of event (record { bus = subscribe_all calls []; state = state })))
          (find-subscribe_all (type_of event) calls [])
          (dispatch-CallsInOrder (find (type_of event) (subscribe_all calls [])) event
            (record { bus = subscribe_all calls []; state = state }))
