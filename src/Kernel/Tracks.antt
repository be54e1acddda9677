-- ===== src/Kernel/Tracks.antt =====
-- What a property of the world makes of the calls. `P held w` may speak of what is held: a call
-- that acquires or gives back changes `held`, every other call keeps it. The bus is left out.
use ugreen_leds_controller.Prelude.{ℕ, ◌≡◌, ◌∙◌, ap, List, [], ◌∷◌, some, subst}
use ugreen_leds_controller.Env.{Env, Fd, TimerValue}
use ugreen_leds_controller.Kernel.{Kernel, File, unreadable, stream, first_of, read_first_line}
use ugreen_leds_controller.Kernel.Ledger.{
  Resource, descriptor, open_stream, open_directory, give_back, acquired, opened, listed, closed,
  Ledger, give_back_stream, give_back_directory, give_back_descriptor,
}

pub record Tracks (env : Env) (kernel : Kernel env.World) (P : List Resource → env.World → Type 0)
    : Type 0 where
  pub timerfd_create :
      (held : List Resource) (w : env.World)
      → P held w
      → P (acquired descriptor (env.timerfd_create w).0 held) (env.timerfd_create w).1
  pub timerfd_settime :
      (held : List Resource) (fd : Fd) (flags : ℕ) (t : TimerValue) (w : env.World)
      → P held w
      → P held (env.timerfd_settime fd flags t w).1
  pub timerfd_read :
      (held : List Resource) (fd : Fd) (w : env.World) → P held w → P held (env.timerfd_read fd w).1
  pub clock_gettime :
      (held : List Resource) (w : env.World) → P held w → P held (env.clock_gettime w).1
  pub close :
      (held : List Resource) (fd : Fd) (w : env.World)
      → P held w
      → P (closed fd held) (env.close fd w)
  pub fopen :
      (held : List Resource) (path : List ℕ) (w : env.World)
      → P held w
      → P (opened (kernel.fopen path w).0 held) (kernel.fopen path w).1
  pub fclose :
      (held : List Resource) (n : ℕ) (w : env.World)
      → P held w
      → P (give_back (open_stream n) held) (kernel.fclose n w)
  pub opendir :
      (held : List Resource) (path : List ℕ) (w : env.World)
      → P held w
      → P (listed (kernel.opendir path w).0 held) (kernel.opendir path w).1
  pub closedir :
      (held : List Resource) (n : ℕ) (w : env.World)
      → P held w
      → P (give_back (open_directory n) held) (kernel.closedir n w)
  pub socket :
      (held : List Resource) (w : env.World)
      → P held w
      → P (acquired descriptor (kernel.socket w).0 held) (kernel.socket w).1
  pub bind : (held : List Resource) (n : ℕ) (w : env.World) → P held w → P held (kernel.bind n w).1
  pub recv :
      (held : List Resource) (fd : Fd) (size : ℕ) (w : env.World)
      → P held w
      → P held (kernel.recv fd size w).1
  pub read_signal :
      (held : List Resource) (fd : Fd) (w : env.World)
      → P held w
      → P held (kernel.read_signal fd w).1
  pub poll :
      (held : List Resource) (a b c d e : Fd) (w : env.World)
      → P held w
      → P held (kernel.poll a b c d e w).1

-- The ledger itself.
pub held-Tracks :
    (env : Env) (kernel : Kernel env.World) (ledger : Ledger env kernel)
    → Tracks env kernel (λ xs w. ledger.held w ≡ xs)
held-Tracks env kernel ledger = record {
  timerfd_create =
      λ xs w h. ledger.timerfd_create_held w ∙ ap (acquired descriptor (env.timerfd_create w).0) h;
  timerfd_settime = λ xs fd flags t w h. ledger.timerfd_settime_held fd flags t w ∙ h;
  timerfd_read = λ xs fd w h. ledger.timerfd_read_held fd w ∙ h;
  clock_gettime = λ xs w h. ledger.clock_gettime_held w ∙ h;
  close = λ xs fd w h. ledger.close_held fd w ∙ ap (closed fd) h;
  fopen = λ xs path w h. ledger.fopen_held path w ∙ ap (opened (kernel.fopen path w).0) h;
  fclose = λ xs n w h. ledger.fclose_held n w ∙ ap (give_back (open_stream n)) h;
  opendir = λ xs path w h. ledger.opendir_held path w ∙ ap (listed (kernel.opendir path w).0) h;
  closedir = λ xs n w h. ledger.closedir_held n w ∙ ap (give_back (open_directory n)) h;
  socket = λ xs w h. ledger.socket_held w ∙ ap (acquired descriptor (kernel.socket w).0) h;
  bind = λ xs n w h. ledger.bind_held n w ∙ h;
  recv = λ xs fd size w h. ledger.recv_held fd size w ∙ h;
  read_signal = λ xs fd w h. ledger.read_signal_held fd w ∙ h;
  poll = λ xs a b c d e w h. ledger.poll_held a b c d e w ∙ h;
}

module _ (env : Env) (kernel : Kernel env.World) (P : List Resource → env.World → Type 0)
    (tracks : Tracks env kernel P) where
  open env use {World}

  pub fclose-tracks :
      (n : ℕ) (xs : List Resource) (w : World) → P (open_stream n ∷ xs) w → P xs (kernel.fclose n w)
  fclose-tracks n xs w h =
      subst (λ ys. P ys (kernel.fclose n w)) (give_back_stream n xs) (tracks.fclose _ n w h)

  pub closedir-tracks :
      (n : ℕ) (xs : List Resource) (w : World)
      → P (open_directory n ∷ xs) w
      → P xs (kernel.closedir n w)
  closedir-tracks n xs w h =
      subst (λ ys. P ys (kernel.closedir n w)) (give_back_directory n xs) (tracks.closedir _ n w h)

  pub close-tracks :
      (n : ℕ) (xs : List Resource) (w : World)
      → P (descriptor n ∷ xs) w
      → P xs (env.close (some n) w)
  close-tracks n xs w h =
      subst (λ ys. P ys (env.close (some n) w)) (give_back_descriptor n xs)
        (tracks.close _ (some n) w h)

  first_of-tracks :
      (size : ℕ) (file : File) (xs : List Resource) (w : World)
      → P (opened file xs) w
      → P xs (first_of kernel size (file, w)).1
  first_of-tracks size (unreadable e) xs w h = h
  first_of-tracks size (stream n [] e) xs w h = fclose-tracks n xs w h
  first_of-tracks size (stream n (line ∷ lines) e) xs w h = fclose-tracks n xs w h

  pub read_first_line-tracks :
      (path : List ℕ) (size : ℕ) (xs : List Resource) (w : World)
      → P xs w
      → P xs (read_first_line kernel path size w).1
  unfolding read_first_line
  read_first_line-tracks path size xs w h =
      let file = kernel.fopen path w in
      first_of-tracks size file.0 xs file.1 (tracks.fopen xs path w h)
