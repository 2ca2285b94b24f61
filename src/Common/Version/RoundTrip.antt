-- ===== src/Common/Version/RoundTrip.antt =====
-- Printing a version and reading it again (common/src/common/version.cpp).
use molar_tracker.Base.{
  ℕ, zero, suc, ◌+◌, ◌-◌, ◌*◌, ◌/◌, ◌%◌, ◌^◌, ◌≤◌, ◌<◌, ◌≡◌, ◌≢◌, refl, sym, ap, ◌∙◌, some, List,
  [], ◌∷◌, ◌++◌, true, false, all, ltb, ltb→lt, lt→ltb, Bool-cases, inl, inr, ◌==◌, arith,
}
use molar_tracker.Base.Text.{Text}
use mathlib.Core.List.{append-nil, append_assoc}
use molar_tracker.Common.Version.{
  sem_ver, is_digit, value_of, max_int, stoi, Reading, read_char, read_chars, last_value,
  nothing_read, parse, of_text, decimal, number_text, version_text,
}

-- A text that `stoi` reads as `n`.
record IsNumeral (s : Text) (n : ℕ) : Type 0 where
  digits : all is_digit s ≡ true
  value : value_of 0 s ≡ n
  some_digit : s ≢ []

value_of-append :
    (n : ℕ) (s : Text) (c : ℕ) → value_of n (s ++ c ∷ []) ≡ value_of n s * 10 + (c - b'0')
unfolding value_of
value_of-append n [] c = refl
value_of-append n (d ∷ s) c = value_of-append (n * 10 + (d - b'0')) s c

all-append :
    (s : Text) (c : ℕ)
    → all is_digit s ≡ true
    → is_digit c ≡ true
    → all is_digit (s ++ c ∷ []) ≡ true
all-append [] c h k = ground arith
all-append (d ∷ s) c h k = ground (arith, all-append s c)

append_one-ne-nil : (s : Text) (c : ℕ) → (s ++ c ∷ []) ≢ []
append_one-ne-nil [] c = λ q. cc
append_one-ne-nil (d ∷ s) c = λ q. cc

digit-IsNumeral : (n : ℕ) → n < 10 → IsNumeral ((b'0' + n) ∷ []) n
unfolding value_of
digit-IsNumeral n h = record { digits = ground arith; value = omega arith; some_digit = λ q. cc }

append-IsNumeral :
    (s : Text) (n : ℕ) → IsNumeral s (n / 10) → IsNumeral (s ++ (b'0' + n % 10) ∷ []) n
append-IsNumeral s n i = record {
  digits = all-append s (b'0' + n % 10) i.digits (ground arith);
  value = value_of-append 0 s (b'0' + n % 10) ∙ rw i.value (omega arith);
  some_digit = append_one-ne-nil s (b'0' + n % 10);
}

decimal-IsNumeral : (k n : ℕ) → n < 10 ^ suc k → IsNumeral (decimal (suc k) n) n
unfolding decimal
decimal-IsNumeral zero n h = rw (lt→ltb n 10 (omega arith)) (digit-IsNumeral n (omega arith))
decimal-IsNumeral (suc k) n h = elim (Bool-cases (ltb n 10)) [
  | inl e ↦ rw e (digit-IsNumeral n (ltb→lt n 10 e))
  | inr e ↦
      rw e
        (append-IsNumeral (decimal (suc k) (n / 10)) n (decimal-IsNumeral k (n / 10) (omega arith)))
]

read_char-digit :
    (c : ℕ) (values : List ℕ) (before : Text)
    → is_digit c ≡ true
    → read_char c (record { values = values; digits = before })
      ≡ some (record { values = values; digits = before ++ c ∷ [] })
unfolding read_char
read_char-digit c values before h = ground arith

digit-plus : (c : ℕ) → is_digit c ≡ true → (c == b'+') ≡ false
digit-plus c h = ground arith

first_digit : (c : ℕ) (s : Text) → all is_digit (c ∷ s) ≡ true → is_digit c ≡ true
first_digit c s h = ground arith

read_chars_step :
    (c : ℕ) (cs : Text) (r r₁ : Reading)
    → read_char c r ≡ some r₁
    → (c == b'+') ≡ false
    → read_chars (c ∷ cs) r ≡ read_chars cs r₁
unfolding read_chars
read_chars_step c cs r r₁ h k = rw (h, k, read_chars) refl

-- Digits are kept for the next value.
read_chars-digits :
    (s rest : Text) (values : List ℕ) (before : Text)
    → all is_digit s ≡ true
    → read_chars (s ++ rest) (record { values = values; digits = before })
      ≡ read_chars rest (record { values = values; digits = before ++ s })
read_chars-digits [] rest values before h = rw (append-nil before) refl
read_chars-digits (c ∷ s) rest values before h =
    read_chars_step c (s ++ rest) _ _ (read_char-digit c values before (first_digit c s h))
      (digit-plus c (first_digit c s h))
    ∙ read_chars-digits s rest values (before ++ c ∷ []) (ground arith)
    ∙ ap (λ d. read_chars rest (record { values = values; digits = d }))
        (append_assoc before (c ∷ []) s)

stoi-IsNumeral : (s : Text) (n : ℕ) → IsNumeral s n → n ≤ max_int → stoi s ≡ some n
unfolding stoi
stoi-IsNumeral s n i h = rw i.value (ground arith)

read_char-dot :
    (s : Text) (n : ℕ) (values : List ℕ)
    → IsNumeral s n
    → n ≤ max_int
    → read_char b'.' (record { values = values; digits = s })
      ≡ some (record { values = values ++ n ∷ []; digits = [] })
unfolding read_char
read_char-dot [] n values i h = absurd (i.some_digit refl)
read_char-dot (c ∷ s) n values i h = rw (stoi-IsNumeral (c ∷ s) n i h) refl

-- A numeral and a dot are one value.
read_chars-dot :
    (s rest : Text) (n : ℕ) (values : List ℕ)
    → IsNumeral s n
    → n ≤ max_int
    → read_chars (s ++ b'.' ∷ rest) (record { values = values; digits = [] })
      ≡ read_chars rest (record { values = values ++ n ∷ []; digits = [] })
read_chars-dot s rest n values i h =
    read_chars-digits s (b'.' ∷ rest) values [] i.digits
    ∙ read_chars_step b'.' rest _ _ (read_char-dot s n values i h) refl

-- A numeral at the end is the last value.
read_chars-last :
    (s : Text) (values : List ℕ)
    → all is_digit s ≡ true
    → read_chars s (record { values = values; digits = [] })
      ≡ some (record { values = values; digits = s })
unfolding read_chars
read_chars-last s values h =
    ap (λ t. read_chars t (record { values = values; digits = [] })) (sym (append-nil s))
    ∙ read_chars-digits s [] values [] h

last_value-IsNumeral :
    (s : Text) (n : ℕ) (values : List ℕ)
    → IsNumeral s n
    → n ≤ max_int
    → last_value (record { values = values; digits = s })
      ≡ some (record { values = values ++ n ∷ []; digits = [] })
unfolding last_value
last_value-IsNumeral [] n values i h = absurd (i.some_digit refl)
last_value-IsNumeral (c ∷ s) n values i h = rw (stoi-IsNumeral (c ∷ s) n i h) refl

number_text-IsNumeral : (n : ℕ) → n ≤ max_int → IsNumeral (number_text n) n
unfolding number_text
number_text-IsNumeral n h = decimal-IsNumeral 19 n (omega arith)

read_chars-version_text :
    (a b c : ℕ)
    → a ≤ max_int
    → b ≤ max_int
    → c ≤ max_int
    → read_chars (version_text (sem_ver a b c)) nothing_read
      ≡ some (record { values = a ∷ b ∷ []; digits = number_text c })
unfolding version_text
read_chars-version_text a b c h k l =
    read_chars-dot (number_text a) (number_text b ++ b'.' ∷ number_text c) a []
      (number_text-IsNumeral a h) h
    ∙ read_chars-dot (number_text b) (number_text c) b (a ∷ []) (number_text-IsNumeral b k) k
    ∙ read_chars-last (number_text c) (a ∷ b ∷ []) (number_text-IsNumeral c l).digits

-- A version whose numbers are at most those of an `int` is read back from its text.
pub of_text-version_text :
    (a b c : ℕ)
    → a ≤ max_int
    → b ≤ max_int
    → c ≤ max_int
    → of_text (version_text (sem_ver a b c)) ≡ sem_ver a b c
unfolding of_text parse
of_text-version_text a b c h k l =
    rw
      (
        of_text,
        parse,
        read_chars-version_text a b c h k l,
        last_value-IsNumeral (number_text c) c (a ∷ b ∷ []) (number_text-IsNumeral c l) l,
      )
      refl
