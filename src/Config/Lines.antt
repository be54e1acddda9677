-- ===== src/Config/Lines.antt =====
-- A line of the configuration file: `trim`, `config_value` and the split at '=' of
-- `config_load_file` in ebpf/src/config.c.
use ugreen_leds_controller.Prelude.{
  ℕ, Bool, true, false, ◌&&◌, ◌||◌, List, [], ◌∷◌, Option, some, none, ◌==◌, leb, if◌then◌else◌,
}
use ugreen_leds_controller.Config.{codes}
use ugreen_leds_controller.DiskLed.Layout.{starts_with}

-- `isspace` of the C locale.
abbrev pub is_space : ℕ → Bool
is_space c = c == 32 || (leb 9 c && leb c 13)

abbrev pub trim_left : List ℕ → List ℕ
trim_left [] = []
trim_left (c ∷ cs) = let rest = trim_left cs in if is_space c then rest else c ∷ cs

-- One more character before what the loop from the end has kept.
abbrev pub keep_before : ℕ → List ℕ → List ℕ
keep_before c [] = if is_space c then [] else c ∷ []
keep_before c (d ∷ ds) = c ∷ d ∷ ds

abbrev pub trim_right : List ℕ → List ℕ
trim_right [] = []
trim_right (c ∷ cs) = keep_before c (trim_right cs)

unfoldable pub trim : List ℕ → List ℕ
trim text = trim_right (trim_left text)

abbrev pub is_quote : ℕ → Bool
is_quote c = c == 39 || c == 34

-- `quote ? '\0' : *cursor`, where the character is a quote that opens or closes.
abbrev pub toggle : ℕ → ℕ → ℕ
toggle quote c = if quote == 0 then c else 0

-- The loop of `config_value`: the text before a '#' outside quotes. `quote` is 0 outside.
unfoldable pub cut_comment : (quote : ℕ) → List ℕ → List ℕ
cut_comment quote [] = []
cut_comment quote (c ∷ cs) =
    let switched = c ∷ cut_comment (toggle quote c) cs in
    let same = c ∷ cut_comment quote cs in
    if is_quote c && (quote == 0 || quote == c)
    then switched
    else if c == 35 && quote == 0
    then []
    else same

-- The last character, or `c`.
abbrev pub last_or : ℕ → List ℕ → ℕ
last_or c [] = c
last_or c (d ∷ ds) = last_or d ds

abbrev pub but_last : List ℕ → List ℕ
but_last [] = []
but_last (c ∷ []) = []
but_last (c ∷ d ∷ ds) = c ∷ but_last (d ∷ ds)

-- A pair of quotes round the text is taken off.
unfoldable pub unquote : List ℕ → List ℕ
unquote [] = []
unquote (c ∷ []) = c ∷ []
unquote (c ∷ d ∷ ds) = if is_quote c && last_or d ds == c then but_last (d ∷ ds) else c ∷ d ∷ ds

unfoldable pub config_value : List ℕ → List ℕ
unfolding cut_comment trim unquote
config_value text = unquote (trim (cut_comment 0 text))

abbrev pub add_before : ℕ → Option (List ℕ × List ℕ) → Option (List ℕ × List ℕ)
add_before c none = none
add_before c (some (before, behind)) = some (c ∷ before, behind)

-- `strchr(key, '=')`: what stands before and behind the first '='.
unfoldable pub split_at_equals : List ℕ → Option (List ℕ × List ℕ)
split_at_equals [] = none
split_at_equals (c ∷ cs) =
    let rest = add_before c (split_at_equals cs) in if c == 61 then some ([], cs) else rest

abbrev pub setting_of : Option (List ℕ × List ℕ) → Option (List ℕ × List ℕ)
setting_of none = none
setting_of (some (key, text)) = some (trim key, config_value text)

abbrev pub is_empty : List ℕ → Bool
is_empty [] = true
is_empty (c ∷ cs) = false

abbrev pub first_is : ℕ → List ℕ → Bool
first_is c [] = false
first_is c (d ∷ ds) = d == c

-- The key and the value of a line, `none` where the loop goes on to the next line.
unfoldable pub read_line : List ℕ → Option (List ℕ × List ℕ)
unfolding split_at_equals config_value trim
read_line line =
    let text = trim line in
    if is_empty text || first_is 35 text || starts_with text (codes "declare ")
    then none
    else setting_of (split_at_equals text)
