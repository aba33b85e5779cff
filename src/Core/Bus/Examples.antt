-- ===== src/Core/Bus/Examples.antt =====
-- A bus of three handlers, one of which subscribes another in the middle of a dispatch.
use yoru_speech.Common.{ℕ, ◌≡◌, refl, List, [], ◌∷◌, ◌++◌, ◌==◌, if◌then◌else◌}
use yoru_speech.Core.Bus.{World, Outcome, returned, subscribe, publish}
use yoru_speech.Core.Bus.Order.{subscribe_all, world, CallsInOrder, publish-subscribe_all}

-- Handlers and events are numbers; handler 1 subscribes handler 9.
abbrev call : ℕ → ℕ → World ℕ (List ℕ) → Outcome ℕ (List ℕ)
call handler event w = returned (record {
  bus = if handler == 1 then subscribe event 9 w.bus else w.bus;
  state = w.state ++ handler ∷ [];
})

traced :
    (handler event : ℕ) (w : World ℕ (List ℕ))
    → (world call (λ e. e) (λ s. s) (call handler event w)).state ≡ w.state ++ handler ∷ []
traced handler event w = refl

publish-subscribe_all_example :
    CallsInOrder call
      (λ e. e)
      (λ s. s)
      []
      (1 ∷ 3 ∷ [])
      (publish call
        (λ e. e)
        5
        (record { bus = subscribe_all ((5, 1) ∷ (6, 2) ∷ (5, 3) ∷ []) []; state = [] }))
publish-subscribe_all_example =
    publish-subscribe_all call (λ e. e) (λ s. s) traced ((5, 1) ∷ (6, 2) ∷ (5, 3) ∷ []) 5 []
