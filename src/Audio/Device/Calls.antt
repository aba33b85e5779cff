-- ===== src/Audio/Device/Calls.antt =====
-- The protocol of the miniaudio calls of capture_device.cpp.
use yoru_speech.Common.{◌≡◌, Bool, true, false, List, [], ◌∷◌, ◌++◌, Option, none, some, arith}
use yoru_speech.Audio.Device.{
  Device, Hardware, MaCall, init, start_call, uninit, create, start, stop, Notification, notify,
}

pub data Action : Type 0 where
  starts : Hardware → Action
  stops : Action
  notified : Notification → Action

unfoldable pub step : Device → Action → Device × List MaCall
step d (starts hw) = let (d', calls, error) = start hw d in (d', calls)
step d stops = stop d
step d (notified n) = (notify n d, [])

unfoldable pub run : Device → List Action → Device × List MaCall
run d [] = (d, [])
run d (a ∷ as') =
    let (d', calls) = step d a in let (d'', later) = run d' as' in (d'', calls ++ later)

-- Whether miniaudio holds a live device after a call; `none` is a call that it does not allow:
-- an init over a live device, a start or an uninit without one.
unfoldable pub after_call : Bool → MaCall → Option Bool
after_call true (init opened) = none
after_call false (init opened) = some opened
after_call true (start_call done) = some true
after_call false (start_call done) = none
after_call true uninit = some false
after_call false uninit = none

continue : Option Bool → (Bool → Option Bool) → Option Bool
continue none f = none
continue (some l) f = f l

unfoldable pub after_calls : Bool → List MaCall → Option Bool
unfolding continue
after_calls live [] = some live
after_calls live (c ∷ cs) = continue (after_call live c) (λ l. after_calls l cs)

after_calls-append :
    (live : Bool) (cs ds : List MaCall) {l : Bool}
    → after_calls live cs ≡ some l
    → after_calls live (cs ++ ds) ≡ after_calls l ds
unfolding after_calls after_call
after_calls-append live [] ds h = ground arith
after_calls-append true (init o ∷ cs) ds h = ground (arith, h)
after_calls-append false (init o ∷ cs) ds h = after_calls-append o cs ds h
after_calls-append true (start_call o ∷ cs) ds h = after_calls-append true cs ds h
after_calls-append false (start_call o ∷ cs) ds h = ground (arith, h)
after_calls-append true (uninit ∷ cs) ds h = after_calls-append false cs ds h
after_calls-append false (uninit ∷ cs) ds h = ground (arith, h)

-- A running device is an initialised one.
abbrev pub IsSound : Device → Type 0
IsSound d = d.running ≡ true → d.initialized ≡ true

step_protocol :
    (d : Device) (a : Action)
    → IsSound d
    → (after_calls d.initialized (step d a).1 ≡ some (step d a).0.initialized)
      × IsSound (step d a).0
unfolding step start stop notify after_calls after_call
step_protocol d (starts hw) h = ground arith
step_protocol d stops h = ground arith
step_protocol d (notified Notification.stopped) h = ground arith
step_protocol d (notified Notification.other) h = (ground arith, h)

run_protocol_from :
    (d : Device) (as' : List Action)
    → IsSound d
    → after_calls d.initialized (run d as').1 ≡ some (run d as').0.initialized
unfolding run
run_protocol_from d [] h = unfold after_calls in ground arith
run_protocol_from d (a ∷ as') h =
    let p = step_protocol d a h in
    ground (
      arith,
      after_calls-append d.initialized (step d a).1 (run (step d a).0 as').1 p.0,
      run_protocol_from (step d a).0 as' p.1,
    )

-- Whatever the order of starts, stops and notifications, and whatever the hardware answers, a new
-- capture device makes only calls that miniaudio allows (no init over a live device, no start and no
-- uninit without one), and its `initialized` flag says at the end whether miniaudio holds a device.
pub run_protocol :
    (as' : List Action) → after_calls false (run create as').1 ≡ some (run create as').0.initialized
unfolding create
run_protocol as' = run_protocol_from create as' (λ e. ground (arith, e))
