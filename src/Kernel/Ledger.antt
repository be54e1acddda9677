-- ===== src/Kernel/Ledger.antt =====
-- What the process holds: the descriptors, streams, directories and BPF objects that a successful
-- call acquired and no call has given back yet.
use ugreen_leds_controller.Prelude.{
  ℕ, ◌≡◌, ◌∙◌, ap, Bool, false, ◌&&◌, ◌==◌, ==_refl, if◌then◌else◌, List, [], ◌∷◌, none, some,
}
use ugreen_leds_controller.Env.{Env, Fd, TimerValue, Reply, value, failed}
use ugreen_leds_controller.Kernel.{
  Kernel, File, unreadable, stream, Directory, unlisted, listing, read_first_line, first_of,
}
use ugreen_leds_controller.Controller.Keeps.{OnBus}

pub data Resource : Type 0 where
  descriptor open_stream open_directory : ℕ → Resource
  bpf_object bpf_link ring_buffer : ℕ → Resource
  tc_filter : (ifindex attach_point handle : ℕ) → Resource

abbrev pub resource_equal : Resource → Resource → Bool
resource_equal (descriptor i) (descriptor j) = i == j
resource_equal (open_stream i) (open_stream j) = i == j
resource_equal (open_directory i) (open_directory j) = i == j
resource_equal (bpf_object i) (bpf_object j) = i == j
resource_equal (bpf_link i) (bpf_link j) = i == j
resource_equal (ring_buffer i) (ring_buffer j) = i == j
resource_equal (tc_filter i a h) (tc_filter j b k) = a == b && h == k && i == j
resource_equal _ _ = false

-- The newest equal entry is given back.
abbrev pub give_back : Resource → List Resource → List Resource
give_back r [] = []
give_back r (x ∷ xs) = let rest = x ∷ give_back r xs in if resource_equal r x then xs else rest

abbrev pub acquired : (ℕ → Resource) → Reply → List Resource → List Resource
acquired kind (value n) held = kind n ∷ held
acquired kind (failed e) held = held

abbrev pub opened : File → List Resource → List Resource
opened (unreadable e) held = held
opened (stream handle lines e) held = open_stream handle ∷ held

abbrev pub listed : Directory → List Resource → List Resource
listed (unlisted e) held = held
listed (listing handle names) held = open_directory handle ∷ held

abbrev pub closed : Fd → List Resource → List Resource
closed none held = held
closed (some n) held = give_back (descriptor n) held

-- How the calls acquire and give back. `held` follows the successful calls; a call that gives back
-- counts as doing so.
pub record Ledger (env : Env) (kernel : Kernel env.World) : Type 0 where
  pub held : env.World → List Resource
  pub write_held :
      (fd : Fd) (register : ℕ) (block : List ℕ) (w : env.World)
      → held (env.smbus_write fd register block w).1 ≡ held w
  pub read_held :
      (fd : Fd) (register : ℕ) (w : env.World) → held (env.smbus_read_byte fd register w).1 ≡ held w
  pub usleep_held : (n : ℕ) (w : env.World) → held (env.usleep n w).1 ≡ held w
  pub timerfd_create_held :
      (w : env.World)
      → held (env.timerfd_create w).1 ≡ acquired descriptor (env.timerfd_create w).0 (held w)
  pub timerfd_settime_held :
      (fd : Fd) (flags : ℕ) (t : TimerValue) (w : env.World)
      → held (env.timerfd_settime fd flags t w).1 ≡ held w
  pub timerfd_read_held : (fd : Fd) (w : env.World) → held (env.timerfd_read fd w).1 ≡ held w
  pub clock_gettime_held : (w : env.World) → held (env.clock_gettime w).1 ≡ held w
  pub close_held : (fd : Fd) (w : env.World) → held (env.close fd w) ≡ closed fd (held w)
  pub fopen_held :
      (path : List ℕ) (w : env.World)
      → held (kernel.fopen path w).1 ≡ opened (kernel.fopen path w).0 (held w)
  pub fclose_held :
      (n : ℕ) (w : env.World) → held (kernel.fclose n w) ≡ give_back (open_stream n) (held w)
  pub opendir_held :
      (path : List ℕ) (w : env.World)
      → held (kernel.opendir path w).1 ≡ listed (kernel.opendir path w).0 (held w)
  pub closedir_held :
      (n : ℕ) (w : env.World) → held (kernel.closedir n w) ≡ give_back (open_directory n) (held w)
  pub open_file_held :
      (path : List ℕ) (w : env.World)
      → held (kernel.open_file path w).1 ≡ acquired descriptor (kernel.open_file path w).0 (held w)
  pub set_slave_held :
      (fd : Fd) (address : ℕ) (w : env.World) → held (kernel.set_slave fd address w).1 ≡ held w
  pub socket_held :
      (w : env.World) → held (kernel.socket w).1 ≡ acquired descriptor (kernel.socket w).0 (held w)
  pub bind_held : (n : ℕ) (w : env.World) → held (kernel.bind n w).1 ≡ held w
  pub recv_held : (fd : Fd) (size : ℕ) (w : env.World) → held (kernel.recv fd size w).1 ≡ held w
  pub setrlimit_held : (w : env.World) → held (kernel.setrlimit w).1 ≡ held w
  pub sigprocmask_held : (w : env.World) → held (kernel.sigprocmask w).1 ≡ held w
  pub signalfd_held :
      (w : env.World)
      → held (kernel.signalfd w).1 ≡ acquired descriptor (kernel.signalfd w).0 (held w)
  pub read_signal_held : (fd : Fd) (w : env.World) → held (kernel.read_signal fd w).1 ≡ held w
  pub poll_held : (a b c d e : Fd) (w : env.World) → held (kernel.poll a b c d e w).1 ≡ held w

pub give_back_stream :
    (n : ℕ) (xs : List Resource) → give_back (open_stream n) (open_stream n ∷ xs) ≡ xs
give_back_stream n xs = rw (==_refl n)

pub give_back_directory :
    (n : ℕ) (xs : List Resource) → give_back (open_directory n) (open_directory n ∷ xs) ≡ xs
give_back_directory n xs = rw (==_refl n)

pub give_back_descriptor :
    (n : ℕ) (xs : List Resource) → give_back (descriptor n) (descriptor n ∷ xs) ≡ xs
give_back_descriptor n xs = rw (==_refl n)

module _ (env : Env) (kernel : Kernel env.World) (ledger : Ledger env kernel) where
  open env use {World}
  open ledger use {held}

  -- The transfers to the MCU hold nothing.
  pub bus-held : (base : List Resource) → OnBus env (λ w. held w ≡ base)
  bus-held base = record {
    write = λ fd register block w h. ledger.write_held fd register block w ∙ h;
    read = λ fd register w h. ledger.read_held fd register w ∙ h;
    sleep = λ n w h. ledger.usleep_held n w ∙ h;
  }

  first_of-held :
      (size : ℕ) (file : File) (w : World) (base : List Resource)
      → held w ≡ opened file base
      → held (first_of kernel size (file, w)).1 ≡ base
  first_of-held size (unreadable e) w base h = h
  first_of-held size (stream n [] e) w base h =
      ledger.fclose_held n w ∙ ap (give_back (open_stream n)) h ∙ give_back_stream n base
  first_of-held size (stream n (line ∷ lines) e) w base h =
      ledger.fclose_held n w ∙ ap (give_back (open_stream n)) h ∙ give_back_stream n base

  -- Every way out of `read_first_line` closes the stream that it opened.
  pub read_first_line-held :
      (path : List ℕ) (size : ℕ) (w : World) → held (read_first_line kernel path size w).1 ≡ held w
  unfolding read_first_line
  read_first_line-held path size w =
      let file = kernel.fopen path w in
      first_of-held size file.0 file.1 (held w) (ledger.fopen_held path w)

  -- The calls on a directory between `opendir` and `closedir` keep what was held before.
  pub closedir-held :
      (n : ℕ) (w : World) (base : List Resource)
      → held w ≡ open_directory n ∷ base
      → held (kernel.closedir n w) ≡ base
  closedir-held n w base h =
      ledger.closedir_held n w ∙ ap (give_back (open_directory n)) h ∙ give_back_directory n base

  pub close-held :
      (n : ℕ) (w : World) (base : List Resource)
      → held w ≡ descriptor n ∷ base
      → held (env.close (some n) w) ≡ base
  close-held n w base h =
      ledger.close_held (some n) w ∙ ap (give_back (descriptor n)) h ∙ give_back_descriptor n base
