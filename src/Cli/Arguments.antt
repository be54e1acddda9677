-- ===== src/Cli/Arguments.antt =====
-- cli/ugreen_leds_cli.cpp: the arguments behind the LED names. `std::stoi` is a parameter.
use ugreen_leds_controller.Prelude.{
  ℕ, Bool, ◌&&◌, ◌||◌, not, List, [], ◌∷◌, ◌==◌, ltb, length, if◌then◌else◌,
}
use ugreen_leds_controller.Config.{codes}
use ugreen_leds_controller.Config.Values.{text_equal}

-- What an operation does to an LED; `show_status` changes nothing.
pub data Operation : Type 0 where
  onoff : (status : ℕ) → Operation
  blink breath : (t_on t_off : ℕ) → Operation
  color : (r g b : ℕ) → Operation
  brightness : ℕ → Operation
  show_status : Operation

-- `std::stoi(str, &size)`: an exception, or a number with the characters read.
pub data Stoi : Type 0 where
  throws : Stoi
  number : (negative : Bool) → (magnitude size : ℕ) → Stoi

-- The result, or an end of the program: by `show_help_and_exit`, or by an exception.
pub data Reading (A : Type 0) : Type 0 where
  reads : A → Reading A
  shows_help : Reading A
  aborts : Reading A

abbrev pub bind : {A B : Type 0} → Reading A → (A → Reading B) → Reading B
bind (reads a) k = k a
bind shows_help k = shows_help
bind aborts k = aborts

-- The tests of `parse_integer`, with 0 as the lower bound.
abbrev pub in_bounds : List ℕ → (high : ℕ) → Stoi → Reading ℕ
in_bounds str high throws = aborts
in_bounds str high (number negative magnitude size) =
    if not (size == length str)
    then shows_help
    else if (negative && not (magnitude == 0)) || ltb high magnitude
    then shows_help
    else reads magnitude

-- The first argument of an operation.
pub data Flag : Type 0 where
  on_flag off_flag blink_flag breath_flag color_flag brightness_flag status_flag unknown_flag : Flag

abbrev pub flag_of : List ℕ → Flag
flag_of text =
    if text_equal text (codes "-on")
    then on_flag
    else if text_equal text (codes "-off")
    then off_flag
    else if text_equal text (codes "-blink")
    then blink_flag
    else if text_equal text (codes "-breath")
    then breath_flag
    else if text_equal text (codes "-color")
    then color_flag
    else if text_equal text (codes "-brightness")
    then brightness_flag
    else if text_equal text (codes "-status")
    then status_flag
    else unknown_flag

module _ (stoi : List ℕ → Stoi) where
  unfoldable pub parse_integer : List ℕ → (high : ℕ) → Reading ℕ
  parse_integer str high = in_bounds str high (stoi str)

  abbrev pub before : Operation → Reading (List Operation) → Reading (List Operation)
  before op rest = bind rest (λ ops. reads (op ∷ ops))

  abbrev pub two :
      (ℕ → ℕ → Operation) → List ℕ → List ℕ → Reading (List Operation) → Reading (List Operation)
  two make a b rest =
      bind (parse_integer a 0xffff)
        (λ x. bind (parse_integer b 0xffff) (λ y. before (make x y) rest))

  abbrev pub three : List ℕ → List ℕ → List ℕ → Reading (List Operation) → Reading (List Operation)
  three a b c rest = bind (parse_integer a 0xff) (λ r.
      bind (parse_integer b 0xff)
        (λ g. bind (parse_integer c 0xff) (λ v. before (color r g v) rest)))

  -- An operation by its flag and the arguments behind it; `rest0` to `rest3` are the operations
  -- behind 0 to 3 parameters.
  abbrev pub operation :
      Flag
      → List (List ℕ)
      → (rest0 rest1 rest2 rest3 : Reading (List Operation)) → Reading (List Operation)
  operation on_flag args rest0 rest1 rest2 rest3 = before (onoff 1) rest0
  operation off_flag args rest0 rest1 rest2 rest3 = before (onoff 0) rest0
  operation blink_flag (a ∷ b ∷ args) rest0 rest1 rest2 rest3 = two blink a b rest2
  operation blink_flag _ rest0 rest1 rest2 rest3 = shows_help
  operation breath_flag (a ∷ b ∷ args) rest0 rest1 rest2 rest3 = two breath a b rest2
  operation breath_flag _ rest0 rest1 rest2 rest3 = shows_help
  operation color_flag (a ∷ b ∷ c ∷ args) rest0 rest1 rest2 rest3 = three a b c rest3
  operation color_flag _ rest0 rest1 rest2 rest3 = shows_help
  operation brightness_flag (a ∷ args) rest0 rest1 rest2 rest3 =
      bind (parse_integer a 0xff) (λ x. before (brightness x) rest1)
  operation brightness_flag [] rest0 rest1 rest2 rest3 = shows_help
  operation status_flag args rest0 rest1 rest2 rest3 = before show_status rest0
  operation unknown_flag args rest0 rest1 rest2 rest3 = shows_help

  -- The second loop over the arguments.
  unfoldable pub parse_operations : List (List ℕ) → Reading (List Operation)
  unfolding parse_integer
  parse_operations [] = reads []
  parse_operations (x ∷ []) = operation (flag_of x) [] (reads []) shows_help shows_help shows_help
  parse_operations (x ∷ a ∷ []) =
      operation (flag_of x) (a ∷ []) (parse_operations (a ∷ [])) (reads []) shows_help shows_help
  parse_operations (x ∷ a ∷ b ∷ []) =
      operation (flag_of x) (a ∷ b ∷ []) (parse_operations (a ∷ b ∷ [])) (parse_operations (b ∷ []))
        (reads []) shows_help
  parse_operations (x ∷ a ∷ b ∷ c ∷ args) =
      operation (flag_of x) (a ∷ b ∷ c ∷ args) (parse_operations (a ∷ b ∷ c ∷ args))
        (parse_operations (b ∷ c ∷ args)) (parse_operations (c ∷ args)) (parse_operations args)
