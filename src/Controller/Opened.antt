-- ===== src/Controller/Opened.antt =====
-- `led_controller_open` either opens the MCU's device or gives back what it acquired.
use ugreen_leds_controller.Prelude.{
  ℕ, ◌≡◌, ◌⊎◌, inl, inr, refl, subst, ◌∙◌, Bool, true, false, not, ◌||◌, List, [], ◌∷◌, ◌++◌,
  Option, none, some, if◌then◌else◌, leb, length, get_or-replicate,
}
use ugreen_leds_controller.Types.{ugreen_led_count}
use ugreen_leds_controller.Status.{Status, ok, err}
use ugreen_leds_controller.Env.{Env, Reply, value, failed}
use ugreen_leds_controller.Config.{codes}
use ugreen_leds_controller.Config.Values.{Parsed, bad}
use ugreen_leds_controller.DiskLed.Layout.{starts_with}
use ugreen_leds_controller.Kernel.{Kernel, Directory, unlisted, listing, path_max}
use ugreen_leds_controller.Kernel.Ledger.{
  Ledger, Resource, descriptor, acquired, listed, read_first_line-held, closedir-held, close-held,
}
use ugreen_leds_controller.Controller.State.{Controller, Session, zero_cache}
use ugreen_leds_controller.Controller.Protocol.{Mcu}
use ugreen_leds_controller.Controller.Coherence.{IsCoherent, zero_cache-Agrees}
use ugreen_leds_controller.Controller.Open.{
  i2c_sysfs, adapter_name_size, test_entry, search, search_directory, find_i2c_device, detect,
  blank, keep_path, claim, open_at, led_controller_open, led_controller_close, ugreen_led_i2c_addr,
}

module _ (env : Env) (kernel : Kernel env.World) (ledger : Ledger env kernel) (mcu : Mcu env) where
  open env use {World}
  open ledger use {held}

  -- The device is open, and nothing is cached.
  pub record Opens (w : World) (result : Status × Session World) : Type 0 where
    pub returns_ok : result.0 ≡ ok
    pub number : ℕ
    pub is_open : result.1.controller.fd ≡ some number
    pub holds : held result.1.world ≡ descriptor number ∷ held w
    pub coherent : IsCoherent env mcu result.1

  -- An error, without a descriptor, and nothing new is held.
  pub record Refuses (w : World) (result : Status × Session World) : Type 0 where
    pub error : ℕ
    pub returns_error : result.0 ≡ err error
    pub shut : result.1.controller.fd ≡ none
    pub holds : held result.1.world ≡ held w
    pub coherent : IsCoherent env mcu result.1

  abbrev pub OpenOutcome : World → Status × Session World → Type 0
  OpenOutcome w result = Opens w result ⊎ Refuses w result

  either-held :
      (b : Bool) (x y : Bool × World) (base : List Resource)
      → held x.1 ≡ base
      → held y.1 ≡ base
      → held (if b then x else y).1 ≡ base
  either-held true x y base h k = h
  either-held false x y base h k = k

  test_entry-held : (name : List ℕ) (w : World) → held (test_entry env kernel name w).1 ≡ held w
  unfolding test_entry
  test_entry-held name w =
      let name_path = i2c_sysfs ++ 47 ∷ name ++ codes "/device/name" in
      either-held (not (starts_with name (codes "i2c-")) || leb path_max (length name_path))
        (false, w) _ (held w) refl
        (read_first_line-held env kernel ledger name_path adapter_name_size w)

  either_found-held :
      (b : Bool) (x y : Parsed (List ℕ) × World) (base : List Resource)
      → held x.1 ≡ base
      → held y.1 ≡ base
      → held (if b then x else y).1 ≡ base
  either_found-held true x y base h k = h
  either_found-held false x y base h k = k

  search-held : (names : List (List ℕ)) (w : World) → held (search env kernel names w).1 ≡ held w
  unfolding search
  search-held [] w = refl
  search-held (name ∷ names) w =
      let tested = test_entry env kernel name w in
      let same = test_entry-held name w in
      either_found-held tested.0 (_, tested.1) (search env kernel names tested.1) (held w) same
        (search-held names tested.1 ∙ same)

  search_directory-held :
      (d : Directory) (w : World) (base : List Resource)
      → held w ≡ listed d base
      → held (search_directory env kernel (d, w)).1 ≡ base
  search_directory-held (unlisted e) w base h = h
  search_directory-held (listing n names) w base h =
      closedir-held env kernel ledger n (search env kernel names w).1 base (search-held names w ∙ h)

  detect-held : (path : Option (List ℕ)) (w : World) → held (detect env kernel path w).1 ≡ held w
  unfolding find_i2c_device
  detect-held none w =
      let d = kernel.opendir i2c_sysfs w in
      search_directory-held d.0 d.1 (held w) (ledger.opendir_held i2c_sysfs w)
  detect-held (some path) w = refl

  blank-IsCoherent :
      (c : Controller) (w : World)
      → c.cache ≡ blank.cache
      → IsCoherent env mcu (record { controller = c; world = w })
  blank-IsCoherent c w same = record {
    entries = rw same;
    agrees =
        λ i lt. rw (same, get_or-replicate ugreen_led_count i zero_cache) (zero_cache-Agrees _);
  }

  keep_path-outcome :
      (path : List ℕ) (n : ℕ) (s : Status) (v w : World)
      → held w ≡ descriptor n ∷ held v
      → OpenOutcome v (keep_path env kernel path n (s, w))
  unfolding led_controller_close
  keep_path-outcome path n ok v w h = inl (record {
    returns_ok = refl;
    number = n;
    is_open = refl;
    holds = h;
    coherent = blank-IsCoherent _ w refl;
  })
  keep_path-outcome path n (err e) v w h = inr (record {
    error = e;
    returns_error = refl;
    shut = refl;
    holds = close-held env kernel ledger n w (held v) h;
    coherent = blank-IsCoherent _ _ refl;
  })

  claim-outcome :
      (path : List ℕ) (reply : Reply) (v w : World)
      → held w ≡ acquired descriptor reply (held v)
      → OpenOutcome v (claim env kernel path (reply, w))
  claim-outcome path (failed e) v w h = inr (record {
    error = e;
    returns_error = refl;
    shut = refl;
    holds = h;
    coherent = blank-IsCoherent _ w refl;
  })
  claim-outcome path (value n) v w h =
      let slave = kernel.set_slave (some n) ugreen_led_i2c_addr w in
      keep_path-outcome path n slave.0 v slave.1
        (ledger.set_slave_held (some n) ugreen_led_i2c_addr w ∙ h)

  open_at-outcome :
      (path : Parsed (List ℕ)) (v w : World)
      → held w ≡ held v
      → OpenOutcome v (open_at env kernel (path, w))
  open_at-outcome (bad e) v w h = inr (record {
    error = e;
    returns_error = refl;
    shut = refl;
    holds = h;
    coherent = blank-IsCoherent _ w refl;
  })
  open_at-outcome (Parsed.value path) v w h =
      let file = kernel.open_file path w in
      claim-outcome path file.0 v file.1
        (subst (λ b. held file.1 ≡ acquired descriptor file.0 b) h (ledger.open_file_held path w))

  -- For a given path or a search through sysfs: `led_controller_open` either returns 0 with one new
  -- descriptor, the controller's, or an error without a descriptor, and then the streams, the
  -- directory and the descriptor that it opened on the way are closed. In both cases no cached value
  -- disagrees with what the LEDs show.
  pub led_controller_open-outcome :
      (override_path : Option (List ℕ)) (w : World)
      → OpenOutcome w (led_controller_open env kernel override_path w)
  unfolding led_controller_open
  led_controller_open-outcome override_path w =
      let path = detect env kernel override_path w in
      open_at-outcome path.0 w path.1 (detect-held override_path w)
