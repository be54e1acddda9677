-- ===== src/Cli/Readings.antt =====
-- The tool and the kernel driver read the status block of an LED alike.
use ugreen_leds_controller.Prelude.{
  ℕ, ◌+◌, ◌-◌, ◌*◌, ◌%◌, ◌<◌, ◌≡◌, refl, arith, Bool, true, false, ◌&&◌, ◌||◌, not, [], ◌∷◌, Option,
  none, some, if◌then◌else◌, ◌==◌, ltb,
}
use ugreen_leds_controller.Status.{Status, ok, err}
use ugreen_leds_controller.Driver.Bus.{LedState, parse_state, minus_one}
use ugreen_leds_controller.Cli.{LedData, parse_status, verify_checksum, compute_checksum}

-- What the tool makes of a state that the driver read.
abbrev pub led_data_of : LedState → LedData
led_data_of state = record {
  op_mode = state.status;
  brightness = state.brightness;
  color_r = state.r;
  color_g = state.g;
  color_b = state.b;
  t_on = state.t_on;
  t_off = (state.t_cycle + 65536 - state.t_on) % 65536;
}

-- A mode above 3 is not available.
abbrev pub data_of : Status × LedState → Option LedData
data_of (ok, state) = if ltb 3 state.status then none else some (led_data_of state)
data_of (err e, state) = none

by_tests :
    (zero_sum same : Bool) (old new : LedState)
    → (if not (not zero_sum && same) || ltb 3 new.status then none else some (led_data_of new))
      ≡ data_of (if zero_sum || not same then (minus_one, old) else (ok, new))
by_tests true same old new = refl
by_tests false true old new = refl
by_tests false false old new = refl

sums_agree :
    (m v r g b h1 h0 l1 l0 : ℕ)
    → m + v + r + g + b + h1 + h0 + l1 + l0 < 65536
    → (m
          + (v
              + (r
                  + (g
                      + (b + (h1 + (h0 + (l1 + (l0 + 0) % 65536) % 65536) % 65536) % 65536) % 65536)
                    % 65536)
                % 65536)
            % 65536)
        % 65536
      ≡ m + (v + (r + (g + (b + (h1 + (h0 + (l1 + (l0 + 0))))))))
sums_agree m v r g b h1 h0 l1 l0 lt = omega arith

-- For a block of 11 bytes, whatever the driver's state was before: `get_status` of the tool takes
-- the block for available just when ugreen_led_get_state accepts its checksum and the mode is one
-- of the four, and then both read the same mode, brightness, colour and times.
pub parse_status-parse_state :
    (m v r g b h1 h0 l1 l0 c1 c0 : ℕ) (old : LedState)
    → m + v + r + g + b + h1 + h0 + l1 + l0 < 65536
    → parse_status (m ∷ v ∷ r ∷ g ∷ b ∷ h1 ∷ h0 ∷ l1 ∷ l0 ∷ c1 ∷ c0 ∷ [])
      ≡ data_of (parse_state (m ∷ v ∷ r ∷ g ∷ b ∷ h1 ∷ h0 ∷ l1 ∷ l0 ∷ c1 ∷ c0 ∷ []) old)
unfolding parse_status verify_checksum compute_checksum parse_state
parse_status-parse_state m v r g b h1 h0 l1 l0 c1 c0 old lt =
    let sum = m + (v + (r + (g + (b + (h1 + (h0 + (l1 + (l0 + 0)))))))) in
    let comm : c0 + c1 * 256 ≡ c1 * 256 + c0 = omega arith in
    let new : LedState = record {
      status = m;
      r = r;
      g = g;
      b = b;
      brightness = v;
      t_on = l1 * 256 + l0;
      t_cycle = h1 * 256 + h0;
    } in
    rw (sums_agree m v r g b h1 h0 l1 l0 lt, comm)
      (by_tests (sum == 0) (sum == c1 * 256 + c0) old new)
