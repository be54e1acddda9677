-- ===== src/Status.antt =====
-- The `int` results of the C code: 0, or a negative errno (`err e` is the result -e).
-- Operations thread a state explicitly; `if (!error) error = next(...)` is `◌>>◌`.
use ugreen_leds_controller.Prelude.{ℕ, Bool, true, false}

pub data Status : Type 0 where
  ok : Status
  err : ℕ → Status

abbrev pub is_ok : Status → Bool
is_ok ok = true
is_ok (err e) = false

-- The errno values that the code returns or tests.
abbrev pub enoent : ℕ
enoent = 2

abbrev pub eintr : ℕ
eintr = 4

abbrev pub eio : ℕ
eio = 5

abbrev pub eagain : ℕ
eagain = 11

abbrev pub eexist : ℕ
eexist = 17

abbrev pub enodev : ℕ
enodev = 19

abbrev pub e2big : ℕ
e2big = 7

abbrev pub enomem : ℕ
enomem = 12

abbrev pub eperm : ℕ
eperm = 1

abbrev pub erange : ℕ
erange = 34

abbrev pub enametoolong : ℕ
enametoolong = 36

abbrev pub einval : ℕ
einval = 22

abbrev pub emsgsize : ℕ
emsgsize = 90

abbrev pub eremoteio : ℕ
eremoteio = 121

-- An operation on a state `S`.
abbrev pub Op : Type 0 → Type 0
Op S = S → Status × S

module _ {S : Type 0} where
  abbrev pub and_then : Status × S → (S → Status × S) → Status × S
  and_then (ok, s) k = k s
  and_then (err e, s) k = (err e, s)

  infixl 5 ◌>>◌
  abbrev pub ◌>>◌ : Op S → Op S → Op S
  m >> k = λ s. and_then (m s) k
