-- ===== src/Controller/Frame.antt =====
-- The frame that `change_status_once` builds, against the MCU's reading of it.
use ugreen_leds_controller.Prelude.{
  ℕ, ◌+◌, ◌*◌, ◌/◌, ◌%◌, ◌<◌, ◌≡◌, refl, ap, List, [], ◌∷◌, Option, none, some, inl, inr, ◌==◌,
  Bool-cases, length, arith,
}
use ugreen_leds_controller.Controller.Transfer.{frame}
use ugreen_leds_controller.Controller.Protocol.{
  command_of, decode, Shown, Command, brightness_is, color_is, light_is, execute, receive,
}

-- Five parameters of type uint8_t.
pub record AreBytes (command p0 p1 p2 p3 : ℕ) : Type 0 where
  pub command_byte : command < 256
  pub p0_byte : p0 < 256
  pub p1_byte : p1 < 256
  pub p2_byte : p2 < 256
  pub p3_byte : p3 < 256

checksum_holds :
    (command p0 p1 p2 p3 : ℕ)
    → AreBytes command p0 p1 p2 p3
    → let sum =
        0x00 + (0xa0 + (0x01 + (0x00 + (0x00 + (command + (p0 + (p1 + (p2 + (p3 + 0))))))))) in
      sum / 256 % 256 * 256 + sum % 256 ≡ 0xa0 + 0x01 + 0x00 + 0x00 + command + p0 + p1 + p2 + p3
checksum_holds command p0 p1 p2 p3 h = omega arith

-- The MCU accepts the frame of any command and reads back the parameters that went into it.
pub decode-frame :
    (led_id command p0 p1 p2 p3 : ℕ)
    → AreBytes command p0 p1 p2 p3
    → decode led_id (frame led_id command p0 p1 p2 p3) ≡ command_of command p0 p1 p2 p3
unfolding decode frame
decode-frame led_id command p0 p1 p2 p3 h = ground (arith, checksum_holds command p0 p1 p2 p3 h)

execute_idem : (c : Option Command) (s : Shown) → execute c (execute c s) ≡ execute c s
execute_idem none s = refl
execute_idem (some (brightness_is b)) s = refl
execute_idem (some (color_is c)) s = refl
execute_idem (some (light_is l)) s = refl

-- Receiving a block twice is receiving it once.
pub receive_idem :
    (led_id : ℕ) (block : List ℕ) (s : Shown)
    → receive led_id block (receive led_id block s) ≡ receive led_id block s
receive_idem led_id [] s = refl
receive_idem led_id (n ∷ bytes) s = elim (Bool-cases (n == length bytes)) [
  | inl e ↦ rw e (execute_idem (decode led_id bytes) s)
  | inr e ↦ rw e
]

-- The block of `change_status_once` does what its command says.
pub receive-frame :
    (led_id command p0 p1 p2 p3 : ℕ) (s : Shown)
    → AreBytes command p0 p1 p2 p3
    → receive led_id (12 ∷ frame led_id command p0 p1 p2 p3) s
      ≡ execute (command_of command p0 p1 p2 p3) s
unfolding frame
receive-frame led_id command p0 p1 p2 p3 s h =
    ap (λ c. execute c s) (decode-frame led_id command p0 p1 p2 p3 h)
