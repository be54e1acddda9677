-- ===== src/Driver/Frames.antt =====
-- The driver's frames against the daemon's.
use ugreen_leds_controller.Prelude.{ℕ, ◌≡◌, arith}
use ugreen_leds_controller.Controller.Transfer.{frame}
use ugreen_leds_controller.Controller.Frame.{AreBytes}
use ugreen_leds_controller.Driver.Bus.{change_state_frame}

-- The driver, which starts its sum at 0xa1, and the daemon, which adds up the bytes, send the same
-- twelve bytes for a command and its parameters.
pub change_state_frame-frame :
    (led_id command p0 p1 p2 p3 : ℕ)
    → AreBytes command p0 p1 p2 p3
    → change_state_frame led_id command p0 p1 p2 p3 ≡ frame led_id command p0 p1 p2 p3
unfolding change_state_frame frame
change_state_frame-frame led_id command p0 p1 p2 p3 h = ground arith
