-- ===== src/Cli/Serving.antt =====
-- What one operation of the tool, and then all of them, make of one LED.
use ugreen_leds_controller.Prelude.{
  ℕ, zero, suc, ◌+◌, ◌/◌, ◌%◌, ◌<◌, ◌≡◌, ◌≢◌, ◌⊎◌, inl, inr, refl, sym, ap, ◌∙◌, arith, Bool, true,
  false, List, [], ◌∷◌, Option, none, some, if◌then◌else◌, ◌==◌, subst,
}
use ugreen_leds_controller.Status.{Status, ok, err}
use ugreen_leds_controller.Env.{Env, Reply, value, failed}
use ugreen_leds_controller.Types.{rgb}
use ugreen_leds_controller.Controller.Transfer.{frame, low_byte}
use ugreen_leds_controller.Controller.Frame.{AreBytes, receive-frame}
use ugreen_leds_controller.Controller.Protocol.{
  Mcu, Shown, dark, steady, blinking, breathing, command_of, execute, receive, Command,
}
use ugreen_leds_controller.Controller.Recorded.{
  power_command, blink_command, power_bytes, blink_bytes,
}
use ugreen_leds_controller.Cli.{
  Tool, LedData, status_frame, change_status, write_block_data, set_onoff, set_rgb, set_brightness,
  set_blink_or_breath, byte_or_zero, is_last_modification_successful, read_byte_data, get_status,
  read_block_data,
}
use ugreen_leds_controller.Cli.Arguments.{
  Operation, onoff, blink, breath, color, brightness, show_status,
}
use ugreen_leds_controller.Cli.Run.{
  is_modification, perform, wait, confirm, round, unless_done, rounds, if_done, run_operations,
  get_status_again, get_status_robust,
}

-- What an operation asks of an LED.
abbrev pub effect : Operation → Shown → Shown
effect (onoff status) x = record x { light = if status == 0 then dark else steady }
effect (blink t_on t_off) x = record x { light = blinking (t_on + t_off) t_on }
effect (breath t_on t_off) x = record x { light = breathing (t_on + t_off) t_on }
effect (color r g b) x = record x { color = rgb r g b }
effect (brightness n) x = record x { brightness = n }
effect show_status x = x

abbrev pub effects : List Operation → Shown → Shown
effects [] x = x
effects (op ∷ ops) x = effects ops (effect op x)

-- The ranges of the arguments; the times of a blink have a sum below 65536.
abbrev pub IsSound : Operation → Type 0
IsSound (onoff status) = status < 2
IsSound (blink t_on t_off) = t_on + t_off < 65536
IsSound (breath t_on t_off) = t_on + t_off < 65536
IsSound (color r g b) = (r < 256) × (g < 256) × (b < 256)
IsSound (brightness n) = n < 256
IsSound show_status = Unit {0}

abbrev pub AreSound : List Operation → Type 0
AreSound [] = Unit {0}
AreSound (op ∷ ops) = IsSound op × AreSound ops

effect_idem : (op : Operation) (x : Shown) → effect op (effect op x) ≡ effect op x
effect_idem (onoff status) x = refl
effect_idem (blink t_on t_off) x = refl
effect_idem (breath t_on t_off) x = refl
effect_idem (color r g b) x = refl
effect_idem (brightness n) x = refl
effect_idem show_status x = refl

-- The tool sends the same frame as the daemon.
status_frame-frame :
    (led_id command p0 p1 p2 p3 : ℕ)
    → status_frame led_id command p0 p1 p2 p3 ≡ frame led_id command p0 p1 p2 p3
unfolding status_frame frame
status_frame-frame led_id command p0 p1 p2 p3 = refl

module _ (env : Env) (mcu : Mcu env) (tool : Tool env) (n : ℕ) (led_id : ℕ)
    (read_keeps : (register size : ℕ) (w : env.World) (i : ℕ)
      → mcu.shown (tool.read_block (some (suc n)) register size w).1 i ≡ mcu.shown w i) where
  open env use {World, smbus_write, smbus_read_byte, usleep}
  open mcu use {shown}

  -- How a modification is sent.
  record Sends (op : Operation) : Type 0 where
    block : List ℕ
    sends :
        (w : World)
        → perform env tool (some (suc n)) led_id op w ≡ smbus_write (some (suc n)) led_id block w
    means : (x : Shown) → receive led_id block x ≡ effect op x

  change_status_lem :
      (command p0 p1 p2 p3 : ℕ) (w : World)
      → change_status env tool (some (suc n)) led_id command p0 p1 p2 p3 w
        ≡ smbus_write (some (suc n)) led_id (12 ∷ frame led_id command p0 p1 p2 p3) w
  unfolding change_status write_block_data status_frame frame
  change_status_lem command p0 p1 p2 p3 w = refl

  command-Sends :
      (op : Operation) (command p0 p1 p2 p3 : ℕ) (c : Option Command)
      → ((w : World)
          → perform env tool (some (suc n)) led_id op w
            ≡ change_status env tool (some (suc n)) led_id command p0 p1 p2 p3 w)
      → AreBytes command p0 p1 p2 p3
      → command_of command p0 p1 p2 p3 ≡ c
      → ((x : Shown) → execute c x ≡ effect op x)
      → Sends op
  command-Sends op command p0 p1 p2 p3 c is bytes says does = record {
    block = 12 ∷ frame led_id command p0 p1 p2 p3;
    sends = λ w. is w ∙ change_status_lem command p0 p1 p2 p3 w;
    means =
        λ x. receive-frame led_id command p0 p1 p2 p3 x bytes ∙ ap (λ d. execute d x) says ∙ does x;
  }

  operation-Sends : (op : Operation) → IsSound op → is_modification op ≡ true → Sends op
  unfolding perform set_onoff set_rgb set_brightness set_blink_or_breath command_of
  operation-Sends (onoff zero) h m =
      command-Sends (onoff 0) 3 0 0 0 0 _ (λ w. refl) (power_bytes false) (power_command false)
        (λ x. refl)
  operation-Sends (onoff (suc zero)) h m =
      command-Sends (onoff 1) 3 1 0 0 0 _ (λ w. refl) (power_bytes true) (power_command true)
        (λ x. refl)
  operation-Sends (onoff (suc (suc s))) h m = absurd (omega (arith, h))
  operation-Sends (blink t_on t_off) h m =
      let cycle = (t_on + t_off) % 65536 in
      let exact : cycle ≡ t_on + t_off = omega arith in
      command-Sends (blink t_on t_off) 4 (cycle / 256 % 256) (cycle % 256) (t_on / 256 % 256)
        (t_on % 256) _ (λ w. refl) (blink_bytes false cycle t_on)
        (blink_command false cycle t_on (omega arith) (omega arith))
        (λ x. ap (λ c. record x { light = blinking c t_on }) exact)
  operation-Sends (breath t_on t_off) h m =
      let cycle = (t_on + t_off) % 65536 in
      let exact : cycle ≡ t_on + t_off = omega arith in
      command-Sends (breath t_on t_off) 5 (cycle / 256 % 256) (cycle % 256) (t_on / 256 % 256)
        (t_on % 256) _ (λ w. refl) (blink_bytes true cycle t_on)
        (blink_command true cycle t_on (omega arith) (omega arith))
        (λ x. ap (λ c. record x { light = breathing c t_on }) exact)
  operation-Sends (color r g b) h m =
      command-Sends (color r g b) 2 r g b 0 _ (λ w. refl) (omega arith) refl (λ x. refl)
  operation-Sends (brightness v) h m =
      command-Sends (brightness v) 1 v 0 0 0 _ (λ w. refl) (omega arith) refl (λ x. refl)
  operation-Sends show_status h m = absurd (cc)

  -- Each LED shows what it showed, but for LED `led_id`, on which the operation may have worked.
  abbrev Touched : Operation → World → World → Type 0
  Touched op w v =
      (i : ℕ) → (shown v i ≡ shown w i) ⊎ ((i ≡ led_id) × (shown v i ≡ effect op (shown w i)))

  record Serves (op : Operation) (w : World) (r : Bool × World) : Type 0 where
    touched : Touched op w r.1
    done : r.0 ≡ true → shown r.1 led_id ≡ effect op (shown w led_id)

  wait_keeps :
      (retry_cnt : ℕ) (modifies : Bool) (w : World) (i : ℕ)
      → shown (wait env tool (some (suc n)) retry_cnt modifies w) i ≡ shown w i
  wait_keeps zero true w i = mcu.sleep_keeps 500 w i
  wait_keeps zero false w i = refl
  wait_keeps (suc retry_cnt) modifies w i = mcu.sleep_keeps 3000 w i

  accepted :
      (reply : Reply)
      → (byte_or_zero env tool (some (suc n)) (low_byte reply) == 1) ≡ true
      → (v : ℕ) × (reply ≡ value v) × (v % 256 ≡ 1)
  accepted (value v) e = (v, refl, ground arith)
  accepted (failed x) e = absurd (ground arith)

  -- The acknowledgement behind a write.
  confirm-Serves :
      (op : Operation) (sending : Sends op) (s : Status) (w v : World)
      → (s, v) ≡ smbus_write (some (suc n)) led_id sending.block w
      → Serves op w (confirm env tool (some (suc n)) true (s, v))
  unfolding is_last_modification_successful read_byte_data
  confirm-Serves op sending (err e) w v is = record {
    touched = λ i. moved i;
    done = λ h. absurd (cc);
  }
    where
      moved :
          (i : ℕ) → (shown v i ≡ shown w i) ⊎ ((i ≡ led_id) × (shown v i ≡ effect op (shown w i)))
      moved i = elim (mcu.write_effect (some (suc n)) led_id sending.block w i) [
        | inl same ↦ inl (ap (λ r. shown r.1 i) is ∙ same)
        | inr both ↦ inr (both.0, ap (λ r. shown r.1 i) is ∙ both.1 ∙ sending.means (shown w i))
      ]
  confirm-Serves op sending ok w v is = record {
    touched = λ i. moved i;
    done = λ h.
        let (x, got, one) = accepted (smbus_read_byte (some (suc n)) 0x80 (usleep 2000 v).1).0 h in
        quiet led_id
        ∙ ap (λ r. shown r.1 led_id) is
        ∙ mcu.ack_effect (some (suc n)) led_id sending.block w 2000 x (sym (ap (λ r. r.0) is))
            (ap (λ r. (smbus_read_byte (some (suc n)) 0x80 (usleep 2000 r.1).1).0) (sym is) ∙ got)
            one
        ∙ sending.means (shown w led_id);
  }
    where
      quiet :
          (i : ℕ) → shown (smbus_read_byte (some (suc n)) 0x80 (usleep 2000 v).1).1 i ≡ shown v i
      quiet i = mcu.read_keeps (some (suc n)) 0x80 (usleep 2000 v).1 i ∙ mcu.sleep_keeps 2000 v i

      moved :
          (i : ℕ)
          → (shown (smbus_read_byte (some (suc n)) 0x80 (usleep 2000 v).1).1 i ≡ shown w i)
            ⊎ ((i ≡ led_id)
                × (shown (smbus_read_byte (some (suc n)) 0x80 (usleep 2000 v).1).1 i
                    ≡ effect op (shown w i)))
      moved i = elim (mcu.write_effect (some (suc n)) led_id sending.block w i) [
        | inl same ↦ inl (quiet i ∙ ap (λ r. shown r.1 i) is ∙ same)
        | inr both ↦
            inr (both.0, quiet i ∙ ap (λ r. shown r.1 i) is ∙ both.1 ∙ sending.means (shown w i))
      ]

  get_status_keeps :
      (w : World) (i : ℕ) → shown (get_status env tool (some (suc n)) led_id w).1 i ≡ shown w i
  unfolding get_status read_block_data
  get_status_keeps w i = read_keeps ((0x81 + led_id) % 256) 0xb w i

  again_keeps :
      (left : ℕ) (d : Option LedData) (w : World) (i : ℕ)
      → shown (get_status_again env tool (some (suc n)) left led_id (d, w)).1 i ≡ shown w i
  unfolding get_status_again
  again_keeps zero d w i = refl
  again_keeps (suc left) (some d) w i = refl
  again_keeps (suc left) none w i =
      let r = get_status env tool (some (suc n)) led_id (usleep 3000 w).1 in
      again_keeps left r.0 r.1 i ∙ get_status_keeps (usleep 3000 w).1 i ∙ mcu.sleep_keeps 3000 w i

  robust_keeps :
      (w : World) (i : ℕ)
      → shown (get_status_robust env tool (some (suc n)) led_id w).1 i ≡ shown w i
  unfolding get_status_robust
  robust_keeps w i =
      let r = get_status env tool (some (suc n)) led_id (usleep 8000 w).1 in
      again_keeps 4 r.0 r.1 i ∙ get_status_keeps (usleep 8000 w).1 i ∙ mcu.sleep_keeps 8000 w i

  Serves-after :
      (op : Operation) (w v : World) (r : Bool × World)
      → ((i : ℕ) → shown v i ≡ shown w i)
      → Serves op v r
      → Serves op w r
  Serves-after op w v r same h = record {
    touched = λ i. elim (h.touched i) [
      | inl kept ↦ inl (kept ∙ same i)
      | inr both ↦ inr (both.0, both.1 ∙ ap (effect op) (same i))
    ];
    done = λ e. h.done e ∙ ap (effect op) (same led_id);
  }

  Serves-again :
      (op : Operation) (w v : World) (r : Bool × World)
      → Touched op w v
      → Serves op v r
      → Serves op w r
  Serves-again op w v r first h = record {
    touched = λ i. both i (first i) (h.touched i);
    done = λ e. elim (first led_id) [
      | inl kept ↦ h.done e ∙ ap (effect op) kept
      | inr worked ↦ h.done e ∙ ap (effect op) worked.1 ∙ effect_idem op (shown w led_id)
    ];
  }
    where
      both :
          (i : ℕ)
          → (shown v i ≡ shown w i) ⊎ ((i ≡ led_id) × (shown v i ≡ effect op (shown w i)))
          → (shown r.1 i ≡ shown v i) ⊎ ((i ≡ led_id) × (shown r.1 i ≡ effect op (shown v i)))
          → (shown r.1 i ≡ shown w i) ⊎ ((i ≡ led_id) × (shown r.1 i ≡ effect op (shown w i)))
      both i (inl a) (inl b) = inl (b ∙ a)
      both i (inl a) (inr b) = inr (b.0, b.1 ∙ ap (effect op) a)
      both i (inr a) (inl b) = inr (a.0, b ∙ a.1)
      both i (inr a) (inr b) = inr (b.0, b.1 ∙ ap (effect op) a.1 ∙ effect_idem op (shown w i))

  modifies-or-not : (op : Operation) → (is_modification op ≡ true) ⊎ (op ≡ show_status)
  modifies-or-not (onoff status) = inl refl
  modifies-or-not (blink t_on t_off) = inl refl
  modifies-or-not (breath t_on t_off) = inl refl
  modifies-or-not (color r g b) = inl refl
  modifies-or-not (brightness v) = inl refl
  modifies-or-not show_status = inr refl

  round-Serves :
      (op : Operation) (retry_cnt : ℕ) (w : World)
      → IsSound op
      → Serves op w (round env tool (some (suc n)) led_id op retry_cnt w)
  unfolding round
  round-Serves op retry_cnt w sound = elim (modifies-or-not op) [
    | inl m ↦
        let v = wait env tool (some (suc n)) retry_cnt true w in
        let sending = operation-Sends op sound m in
        rw m (
          Serves-after op w v _ (wait_keeps retry_cnt true w) (
            subst (λ x. Serves op v (confirm env tool (some (suc n)) true x))
              (sym (sending.sends v)) (confirm-Serves op sending _ v _ refl)))
    | inr e ↦
        subst (λ o. Serves o w (round env tool (some (suc n)) led_id o retry_cnt w)) (sym e)
          (shows w)
  ]
    where
      shows :
          (w : World)
          → Serves show_status w (round env tool (some (suc n)) led_id show_status retry_cnt w)
      shows w =
          let v = wait env tool (some (suc n)) retry_cnt false w in
          let same : (i : ℕ)
              → shown (get_status_robust env tool (some (suc n)) led_id v).1 i ≡ shown w i =
            λ i. robust_keeps v i ∙ wait_keeps retry_cnt false w i in
          record { touched = λ i. inl (same i); done = λ h. same led_id }

  unless_done-Serves :
      (op : Operation) (rest : World → Bool × World) (w : World) (r : Bool × World)
      → Serves op w r
      → ((v : World) → Serves op v (rest v))
      → Serves op w (unless_done env tool (some (suc n)) rest r)
  unless_done-Serves op rest w (true, v) h next = h
  unless_done-Serves op rest w (false, v) h next = Serves-again op w v (rest v) h.touched (next v)

  rounds-Serves :
      (left retry_cnt : ℕ) (op : Operation) (w : World)
      → IsSound op
      → Serves op w (rounds env tool (some (suc n)) left retry_cnt led_id op w)
  unfolding rounds
  rounds-Serves zero retry_cnt op w sound = record {
    touched = λ i. inl refl;
    done = λ h. absurd (cc);
  }
  rounds-Serves (suc left) retry_cnt op w sound =
      unless_done-Serves op (rounds env tool (some (suc n)) left (retry_cnt + 1) led_id op) w _
        (round-Serves op retry_cnt w sound) (λ v. rounds-Serves left (retry_cnt + 1) op v sound)

  -- All operations on this LED.
  pub record ServesAll (ops : List Operation) (w : World) (r : Bool × World) : Type 0 where
    pub elsewhere : (i : ℕ) → i ≢ led_id → shown r.1 i ≡ shown w i
    pub done : r.0 ≡ true → shown r.1 led_id ≡ effects ops (shown w led_id)

  spared :
      (op : Operation) (w v : World) (i : ℕ) → Touched op w v → i ≢ led_id → shown v i ≡ shown w i
  spared op w v i h ne = elim (h i) [ inl same ↦ same | inr both ↦ absurd (ne both.0) ]

  if_done-ServesAll :
      (op : Operation) (ops : List Operation) (w : World) (r : Bool × World)
      → Serves op w r
      → ((v : World) → ServesAll ops v (run_operations env tool (some (suc n)) led_id ops v))
      → ServesAll
          (op ∷ ops)
          w
          (if_done env tool (some (suc n)) r (run_operations env tool (some (suc n)) led_id ops))
  if_done-ServesAll op ops w (true, v) h next = record {
    elsewhere = λ i ne. (next v).elsewhere i ne ∙ spared op w v i h.touched ne;
    done = λ e. (next v).done e ∙ ap (effects ops) (h.done refl);
  }
  if_done-ServesAll op ops w (false, v) h next = record {
    elsewhere = λ i ne. spared op w v i h.touched ne;
    done = λ e. absurd (cc);
  }

  pub run_operations-ServesAll :
      (ops : List Operation) (w : World)
      → AreSound ops
      → ServesAll ops w (run_operations env tool (some (suc n)) led_id ops w)
  unfolding run_operations
  run_operations-ServesAll [] w sound = record { elsewhere = λ i ne. refl; done = λ e. refl }
  run_operations-ServesAll (op ∷ ops) w sound =
      if_done-ServesAll op ops w (rounds env tool (some (suc n)) max_retry_count_of 0 led_id op w)
        (rounds-Serves max_retry_count_of 0 op w sound.0)
        (λ v. run_operations-ServesAll ops v sound.1)
    where
      max_retry_count_of : ℕ
      max_retry_count_of = 5
