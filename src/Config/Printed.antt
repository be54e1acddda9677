-- ===== src/Config/Printed.antt =====
-- Lines written as `KEY=value` are read back.
use ugreen_leds_controller.Prelude.{
  ℕ, ◌≡◌, ◌≢◌, inl, inr, refl, ap, ◌∙◌, arith, true, false, List, [], ◌∷◌, ◌++◌, some, ◌==◌,
  Bool-cases, subst,
}
use ugreen_leds_controller.Config.{codes}
use ugreen_leds_controller.DiskLed.Layout.{starts_with}
use ugreen_leds_controller.Config.Lines.{
  is_space, trim_right, keep_before, trim, is_quote, cut_comment, unquote, config_value, add_before,
  split_at_equals, read_line,
}

abbrev pub All : (ℕ → Type 0) → List ℕ → Type 0
All P [] = Unit {0}
All P (x ∷ xs) = P x × All P xs

abbrev pub IsSolid : ℕ → Type 0
IsSolid c = is_space c ≡ false

-- A character of a key, and of a value that needs no quotes.
abbrev pub IsKeyChar : ℕ → Type 0
IsKeyChar c = IsSolid c × (c ≢ 61)

abbrev pub IsPlainChar : ℕ → Type 0
IsPlainChar c = IsSolid c × (is_quote c ≡ false) × (c ≢ 35)

key-IsSolid : (key : List ℕ) → All IsKeyChar key → All IsSolid key
key-IsSolid [] h = tt
key-IsSolid (c ∷ cs) h = (h.0.0, key-IsSolid cs h.1)

plain-IsSolid : (text : List ℕ) → All IsPlainChar text → All IsSolid text
plain-IsSolid [] h = tt
plain-IsSolid (c ∷ cs) h = (h.0.0, plain-IsSolid cs h.1)

All-append : (P : ℕ → Type 0) (xs ys : List ℕ) → All P xs → All P ys → All P (xs ++ ys)
All-append P [] ys h k = k
All-append P (x ∷ xs) ys h k = (h.0, All-append P xs ys h.1 k)

keep_before_solid : (c : ℕ) (cs : List ℕ) → IsSolid c → keep_before c cs ≡ c ∷ cs
keep_before_solid c [] h = rw h
keep_before_solid c (d ∷ ds) h = refl

trim_right-newline : (text : List ℕ) → All IsSolid text → trim_right (text ++ 10 ∷ []) ≡ text
trim_right-newline [] h = refl
trim_right-newline (c ∷ cs) h =
    ap (keep_before c) (trim_right-newline cs h.1) ∙ keep_before_solid c cs h.0

trim_right_solid : (text : List ℕ) → All IsSolid text → trim_right text ≡ text
trim_right_solid [] h = refl
trim_right_solid (c ∷ cs) h =
    ap (keep_before c) (trim_right_solid cs h.1) ∙ keep_before_solid c cs h.0

trim_solid : (text : List ℕ) → All IsSolid text → trim text ≡ text
unfolding trim
trim_solid [] h = refl
trim_solid (c ∷ cs) h = rw (h.0) (trim_right_solid (c ∷ cs) h)

trim-newline : (c : ℕ) (cs : List ℕ) → All IsSolid (c ∷ cs) → trim (c ∷ cs ++ 10 ∷ []) ≡ c ∷ cs
unfolding trim
trim-newline c cs h = rw (h.0) (trim_right-newline (c ∷ cs) h)

-- A text without spaces does not start with a word that has one.
starts_with-IsSolid :
    (text word : List ℕ) → All IsSolid text → starts_with text word ≡ true → All IsSolid word
starts_with-IsSolid text [] h e = tt
starts_with-IsSolid [] (w ∷ ws) h e = absurd (cc)
starts_with-IsSolid (c ∷ cs) (w ∷ ws) h e =
    let same : c ≡ w = ground arith in
    (subst IsSolid same h.0, starts_with-IsSolid cs ws h.1 (ground arith))

no_declare : (text : List ℕ) → All IsSolid text → starts_with text (codes "declare ") ≡ false
no_declare text h = elim (Bool-cases (starts_with text (codes "declare "))) [
  | inr e ↦ e
  | inl e ↦ absurd (has_space (starts_with-IsSolid text (codes "declare ") h e))
]
  where
    has_space : All IsSolid (codes "declare ") → ⊥
    has_space h = cc (h.1.1.1.1.1.1.1.0)

split_key :
    (key text : List ℕ) → All IsKeyChar key → split_at_equals (key ++ 61 ∷ text) ≡ some (key, text)
unfolding split_at_equals
split_key [] text h = refl
split_key (c ∷ cs) text h =
    let other : (c == 61) ≡ false = ground arith in
    rw other (ap (add_before c) (split_key cs text h.1))

cut_plain : (text : List ℕ) → All IsPlainChar text → cut_comment 0 text ≡ text
unfolding cut_comment
cut_plain [] h = refl
cut_plain (c ∷ cs) h =
    let other : (c == 35) ≡ false = ground arith in
    rw (h.0.1, other) (ap (◌∷◌ c) (cut_plain cs h.1))

unquote_plain : (text : List ℕ) → All IsPlainChar text → unquote text ≡ text
unfolding unquote
unquote_plain [] h = refl
unquote_plain (c ∷ []) h = refl
unquote_plain (c ∷ d ∷ ds) h = rw (h.0.1)

config_value_plain : (text : List ℕ) → All IsPlainChar text → config_value text ≡ text
unfolding config_value
config_value_plain text h =
    rw (cut_plain text h, trim_solid text (plain-IsSolid text h)) (unquote_plain text h)

-- A key of at least one character, without spaces, '=' and a leading '#', and a value without spaces,
-- quotes and '#', which may be empty, are read back from the line `key=value`.
pub read_line-written :
    (c : ℕ) (cs text : List ℕ)
    → All IsKeyChar (c ∷ cs)
    → c ≢ 35
    → All IsPlainChar text
    → read_line (c ∷ cs ++ 61 ∷ text ++ 10 ∷ []) ≡ some (c ∷ cs, text)
unfolding read_line
read_line-written c cs text key comment plain =
    let line = cs ++ 61 ∷ text in
    let solid : All IsSolid (c ∷ line) = (
      key.0.0,
      All-append IsSolid cs (61 ∷ text) (key-IsSolid cs key.1) (refl, plain-IsSolid text plain),
    ) in
    let other : (c == 35) ≡ false = ground arith in
    rw (
      trim-newline c line solid,
      other,
      no_declare (c ∷ line) solid,
      split_key (c ∷ cs) text key,
      trim_solid (c ∷ cs) (key-IsSolid (c ∷ cs) key),
      config_value_plain text plain,
    )
