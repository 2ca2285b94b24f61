-- ===== src/Common/Version.antt =====
-- Semantic versions (common/include/common/version.hpp, common/src/common/version.cpp).
pub mod RoundTrip
pub mod Order
use Prim.Native.Nat.{compare, Ordering}
use molar_tracker.Base.{
  ℕ, zero, suc, ◌+◌, ◌-◌, ◌*◌, ◌/◌, ◌%◌, ◌^◌, ◌≤◌, ◌≡◌, refl, Option, none, some, List, [], ◌∷◌,
  ◌++◌, Bool, true, false, ◌&&◌, ◌||◌, not, ltb, leb, ◌==◌, if◌then◌else◌,
}
use molar_tracker.Base.Text.{Text}

pub record SemVer : Type 0 where
  pub major : ℕ
  pub minor : ℕ
  pub patch : ℕ
  pub is_invalid : Bool

-- The constructor of three numbers.
abbrev pub sem_ver : ℕ → ℕ → ℕ → SemVer
sem_ver major minor patch = record {
  major = major;
  minor = minor;
  patch = patch;
  is_invalid = false;
}

-- `getInvalidVersion`, and what the constructor of a text makes of a text that is no version.
abbrev pub invalid_version : SemVer
invalid_version = record { major = 0; minor = 0; patch = 0; is_invalid = true }

-- `std::isdigit`
abbrev pub is_digit : ℕ → Bool
is_digit c = leb b'0' c && leb c b'9'

-- The number that digits spell behind `n`.
unfoldable pub value_of : ℕ → Text → ℕ
value_of n [] = n
value_of n (c ∷ cs) = value_of (n * 10 + (c - b'0')) cs

abbrev pub max_int : ℕ
max_int = 2 ^ 31 - 1

-- `std::stoi` of one or more digits: it throws when the number is above that of an `int`.
unfoldable pub stoi : Text → Option ℕ
stoi s = if leb (value_of 0 s) max_int then some (value_of 0 s) else none

abbrev pub is_separator : ℕ → Bool
is_separator c = c == b'.' || c == b'+'

abbrev is_empty_text : Text → Bool
is_empty_text [] = true
is_empty_text (c ∷ s) = false

-- The values read and the digits since the last separator.
pub record Reading : Type 0 where
  pub values : List ℕ
  pub digits : Text

-- `values.push_back(std::stoi(valueStr))`, which an exception makes `nullopt`.
abbrev push_value : List ℕ → Option ℕ → Option Reading
push_value values none = none
push_value values (some v) = some (record { values = values ++ v ∷ []; digits = [] })

-- The body of the loop for one character.
unfoldable pub read_char : ℕ → Reading → Option Reading
read_char c r =
    if not (is_separator c || is_digit c)
    then none
    else if is_separator c
    then (if is_empty_text r.digits then none else push_value r.values (stoi r.digits))
    else some (record r { digits = r.digits ++ c ∷ [] })

-- The loop; a plus ends it, once the value before it is read.
unfoldable pub read_chars : Text → Reading → Option Reading
read_chars [] r = some r
read_chars (c ∷ cs) r = elim (read_char c r) [
  | none ↦ none
  | some r₁ ↦ if c == b'+' then some r₁ else read_chars cs r₁
]

-- The digits behind the last separator are one more value.
unfoldable pub last_value : Reading → Option Reading
last_value r = if is_empty_text r.digits then some r else push_value r.values (stoi r.digits)

abbrev three_values : List ℕ → Option SemVer
three_values (a ∷ b ∷ c ∷ []) = some (sem_ver a b c)
three_values _ = none

abbrev pub nothing_read : Reading
nothing_read = record { values = []; digits = [] }

unfoldable pub parse : Text → Option SemVer
parse s = elim (read_chars s nothing_read) [
  | none ↦ none
  | some r ↦ elim (last_value r) [ none ↦ none | some r₁ ↦ three_values r₁.values ]
]

-- `SemVer(const std::string&)`
unfoldable pub of_text : Text → SemVer
of_text s = elim (parse s) [ none ↦ invalid_version | some v ↦ v ]

-- At most `k` decimal digits of a number.
unfoldable pub decimal : ℕ → ℕ → Text
decimal zero n = []
decimal (suc k) n =
    let before = decimal k (n / 10) in
    if ltb n 10 then (b'0' + n) ∷ [] else before ++ (b'0' + n % 10) ∷ []

-- `std::to_string` of a `std::size_t`, which has 20 digits at most.
unfoldable pub number_text : ℕ → Text
number_text n = decimal 20 n

-- `toString`
unfoldable pub version_text : SemVer → Text
version_text v = number_text v.major ++ b'.' ∷ (number_text v.minor ++ b'.' ∷ number_text v.patch)

-- `operator<=>`
unfoldable pub compare_versions : SemVer → SemVer → Ordering
compare_versions l r =
    if l.is_invalid && r.is_invalid
    then Ordering.eq
    else if l.is_invalid
    then Ordering.lt
    else if r.is_invalid
    then Ordering.gt
    else if not (l.major == r.major)
    then compare l.major r.major
    else if not (l.minor == r.minor)
    then compare l.minor r.minor
    else compare l.patch r.patch

-- `operator==`
unfoldable pub equal_versions : SemVer → SemVer → Bool
equal_versions l r =
    if l.is_invalid
    then r.is_invalid
    else not r.is_invalid && (l.major == r.major && (l.minor == r.minor && l.patch == r.patch))

parse_short : of_text (b'1' ∷ b'.' ∷ b'2' ∷ []) ≡ invalid_version
unfolding of_text parse read_chars read_char last_value stoi value_of
parse_short = refl

parse_suffix : of_text (b'1' ∷ b'.' ∷ b'2' ∷ b'.' ∷ b'3' ∷ b'+' ∷ b'a' ∷ []) ≡ sem_ver 1 2 3
unfolding of_text parse read_chars read_char last_value stoi value_of
parse_suffix = refl
