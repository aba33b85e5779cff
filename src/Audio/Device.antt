-- ===== src/Audio/Device.antt =====
-- domains/audio/capture_device.cpp. Whether miniaudio opens and starts the device is an argument of
-- `start`; the calls made to miniaudio are returned in order.
pub mod Calls
use yoru_speech.Common.{
  Bool, true, false, List, [], ◌∷◌, ◌++◌, Option, none, some, Text, lit, if◌then◌else◌,
}

-- CaptureDevice::Impl without the ma_device; `has_callback` is whether on_samples is set.
pub record Device : Type 0 where
  pub has_callback : Bool
  pub running : Bool
  pub initialized : Bool

-- What the hardware answers to ma_device_init and ma_device_start.
pub record Hardware : Type 0 where
  pub opens : Bool
  pub starts : Bool

pub data MaCall : Type 0 where
  init : Bool → MaCall
  start_call : Bool → MaCall
  uninit : MaCall

-- The constructor asserts a callback.
unfoldable pub create : Device
create = record { has_callback = true; running = false; initialized = false }

-- A device left over from before is torn down first.
unfoldable pub release_stale : Device → Device × List MaCall
release_stale d = if d.initialized then (record d { initialized = false }, uninit ∷ []) else (d, [])

unfoldable pub open_device : Hardware → Device → Device × List MaCall × Option Text
open_device hw d =
    if hw.opens
    then (if hw.starts
        then (
          record d { running = true; initialized = true },
          init true ∷ start_call true ∷ [],
          none,
        )
        else (
          record d { initialized = false },
          init true ∷ start_call false ∷ uninit ∷ [],
          some (lit "failed to start the capture device"),
        ))
    else (d, init false ∷ [], some (lit "failed to open the default capture device"))

unfoldable pub start : Hardware → Device → Device × List MaCall × Option Text
unfolding release_stale open_device
start hw d =
    if d.running
    then (d, [], none)
    else if d.has_callback
    then (let (d', released) = release_stale d in
        let (d'', calls, error) = open_device hw d' in (d'', released ++ calls, error))
    else (d, [], some (lit "capture callback is not set"))

unfoldable pub stop : Device → Device × List MaCall
stop d =
    if d.initialized
    then (record d { initialized = false; running = false }, uninit ∷ [])
    else (d, [])

pub data Notification : Type 0 where
  stopped other : Notification

-- handle_device_notification, on miniaudio's thread.
unfoldable pub notify : Notification → Device → Device
notify stopped d = record d { running = false }
notify other d = d
