-- ===== src/TextParser/Values.antt =====
-- `getValueInt`, `getValueDouble`, `getValueString` and `getValueWString` of
-- CppLockFreeCore/CTextParser.cpp. A result is what is returned, and what is written to `*ipValue`,
-- if anything. `none` is a fault, as in the scanner.
pub mod Tokens
pub mod Found
pub mod Reached
pub mod Strings
use cpp_lockfree_core.Base.{
  ℕ, zero, suc, ◌+◌, ◌*◌, ◌-◌, ◌^◌, Bool, true, false, not, ◌&&◌, ◌||◌, List, [], ◌∷◌, Option, none,
  some, leb, ◌==◌, if◌then◌else◌, length, ◌>>=◌,
}
use cpp_lockfree_core.Grid.{ℤ, pos, negsuc}
use cpp_lockfree_core.TextParser.{
  NameSpace, TextParser, get_next_word, get_string_word, copy_word, same_text,
}

-- `atoi` of the C library: white space, a sign and digits; a number that is too large for an `int`
-- gives the nearest one.
abbrev is_space : ℕ → Bool
is_space c = c == 32 || (leb 9 c && leb c 13)

abbrev is_digit : ℕ → Bool
is_digit c = leb 48 c && leb c 57

unfoldable pub digits : List ℕ → ℕ → ℕ
digits [] n = n
digits (c ∷ cs) n = let more = digits cs (n * 10 + (c - 48)) in if is_digit c then more else n

abbrev pub positive : ℕ → ℤ
positive n = if leb (2 ^ 31) n then pos (2 ^ 31 - 1) else pos n

abbrev pub minus : ℕ → ℤ
minus zero = pos 0
minus (suc n) = if leb (2 ^ 31) n then negsuc (2 ^ 31 - 1) else negsuc n

abbrev pub signed : List ℕ → ℤ
signed [] = pos 0
signed (c ∷ cs) =
    if c == 45
    then minus (digits cs 0)
    else if c == 43
    then positive (digits cs 0)
    else positive (digits (c ∷ cs) 0)

unfoldable pub atoi : List ℕ → ℤ
atoi [] = pos 0
atoi (c ∷ cs) = let more = atoi cs in if is_space c then more else signed (c ∷ cs)

-- What is returned, and what is written.
abbrev pub Value : Type 0 → Type 0
Value A = Bool × Option A

-- How the value behind the equals sign is read, given where the last word was.
abbrev pub Reader : Type 0 → Type 0
Reader A = TextParser → ℕ × ℕ → Option (Value A × TextParser)

abbrev pub Name : Type 0
Name = List ℕ

-- The loop over the name spaces: the last one of the name counts.
abbrev pub enter_named : Name → List NameSpace → Bool × TextParser → Bool × TextParser
enter_named ns [] r = r
enter_named ns (e ∷ es) (found, p) = enter_named ns es (
    if same_text ns e.text
    then (true, record p { cur_pos = e.pos; max_name_space = e.max_pos })
    else (found, p))

-- The part of the file that is searched: all of it, or a name space.
unfoldable pub enter : TextParser → Name → Bool × TextParser
enter p ns =
    if same_text ns []
    then (true, record p { cur_pos = 0; max_name_space = length p.file_buffer })
    else enter_named ns p.name_spaces (false, p)

module _ {A : Type 0} (read : Reader A) where
  -- What comes behind the name: an equals sign and a value.
  unfoldable pub after_name : TextParser → Option (Value A × TextParser)
  after_name p = get_next_word p >>= λ (w, q). elim w [
    | none ↦ some ((false, none), q)
    | some v ↦
        (copy_word q v >>= λ t. if same_text t (61 ∷ []) then read q v else some ((false, none), q))
  ]

  -- The loop, on fuel for the words.
  unfoldable pub seek : ℕ → TextParser → Name → Option (Value A × TextParser)
  seek zero p name = none
  seek (suc fuel) p name = get_next_word p >>= λ (w, q). elim w [
    | none ↦ some ((true, none), q)
    | some v ↦
        (copy_word q v >>= λ t. elim (same_text name t) [
          | true ↦ after_name q
          | false ↦ seek fuel q name
        ])
  ]

  -- What the four functions have in common.
  unfoldable pub get_value : TextParser → Name → Name → Option (Value A × TextParser)
  get_value p name ns =
      let (found, q) = enter p ns in
      if found then seek (suc (length p.file_buffer)) q name else some ((false, none), p)

-- A word is read and converted.
unfoldable pub read_word : {A : Type 0} → (List ℕ → A) → Reader A
read_word f p last = get_next_word p >>= λ (w, q). elim w [
  | none ↦ some ((false, none), q)
  | some v ↦ (copy_word q v >>= λ t. some ((true, some (f t)), q))
]

-- A string in quotation marks is read and converted; `chpBuff` and `iLenth` may be those of the last
-- word.
unfoldable pub read_string : {A : Type 0} → (List ℕ → A) → Reader A
read_string f p last = get_string_word p >>= λ (ok, w, q).
    let v = elim w as (λ _. ℕ × ℕ) [ none ↦ last | some v ↦ v ] in
    if ok then (copy_word q v >>= λ t. some ((true, some (f t)), q)) else some ((false, none), q)

unfoldable pub get_value_string : TextParser → Name → Name → Option (Value (List ℕ) × TextParser)
get_value_string = get_value (read_string (λ t. t))

unfoldable pub get_value_int : TextParser → Name → Name → Option (Value ℤ × TextParser)
get_value_int = get_value (read_word atoi)

-- `mbstowcs` and `atof` are those of the C library.
unfoldable pub get_value_w_string :
    {W : Type 0} (mbstowcs : List ℕ → W) → TextParser → Name → Name → Option (Value W × TextParser)
get_value_w_string mbstowcs = get_value (read_string mbstowcs)

unfoldable pub get_value_double :
    {D : Type 0} (atof : List ℕ → D) → TextParser → Name → Name → Option (Value D × TextParser)
get_value_double atof = get_value (read_word atof)
