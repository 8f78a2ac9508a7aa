-- ===== src/TextParser/NameSpaces.antt =====
-- `checkNameSpace` and `loadText` of CppLockFreeCore/CTextParser.cpp.
pub mod Sections
pub mod Closed
pub mod Filed
pub mod Noting
pub mod Lookups
use cpp_lockfree_core.Base.{
  ℕ, zero, suc, ◌+◌, ◌-◌, Bool, true, false, List, [], ◌∷◌, map, Option, none, some, ◌==◌,
  if◌then◌else◌, length, set, get_elem?, ◌>>=◌,
}
use cpp_lockfree_core.TextParser.{NameSpace, TextParser, get_next_word, copy_word, same_text}

abbrev pub max_name_space_count : ℕ
max_name_space_count = 20

-- A write at index `i` of the arrays.
abbrev pub put : ℕ → (NameSpace → NameSpace) → TextParser → Option TextParser
put i f p =
    get_elem? p.name_spaces i >>= λ e. some (record p { name_spaces = set p.name_spaces i (f e) })

-- The inner loop, up to the closing brace, on fuel for the words.
unfoldable pub close_name_space : ℕ → ℕ → TextParser → Option TextParser
close_name_space zero i p = none
close_name_space (suc fuel) i p = get_next_word p >>= λ (w, q). elim w [
  | none ↦ some q
  | some v ↦
      (copy_word q v >>= λ t. elim (same_text t (125 ∷ [])) [
        | true ↦ put i (λ e. record e { max_pos = q.cur_pos }) q
        | false ↦ close_name_space fuel i q
      ])
]

-- The name behind the colon in `chWord`; a length of zero would make the number of bytes negative.
abbrev pub copy_name : TextParser → ℕ × ℕ → Option (List ℕ)
copy_name p (start, len) = if len == 0 then none else copy_word p (start + 1, len - 1)

-- Whether the word starts with a colon.
abbrev pub opens : TextParser → ℕ → Option Bool
opens p start = get_elem? p.file_buffer start >>= λ c. some (c == 58)

-- A name space is noted, and its end is looked for.
unfoldable pub open_name_space : ℕ → ℕ → TextParser → ℕ × ℕ → Option TextParser
open_name_space fuel i p v = copy_name p v >>= λ t.
    put i (λ e. record e { pos = p.cur_pos; text = t }) p >>= λ q. close_name_space fuel i q

-- The outer loop, on fuel for the words; the inner loop has fuel for all of them.
unfoldable pub find_name_spaces : ℕ → ℕ → TextParser → Option TextParser
find_name_spaces zero i p = none
find_name_spaces (suc fuel) i p = get_next_word p >>= λ (w, q). elim w [
  | none ↦ some q
  | some v ↦
      (opens q v.0 >>= λ b. elim b [
        | true ↦
            (open_name_space (suc (length p.file_buffer)) i q v >>= λ r.
            find_name_spaces fuel (i + 1) r)
        | false ↦ find_name_spaces fuel i q
      ])
]

abbrev pub clear_name_space : ℕ → NameSpace → NameSpace
clear_name_space size e = record e { pos = 0; max_pos = size }

unfoldable pub check_name_space : TextParser → Option TextParser
check_name_space p =
    let size = length p.file_buffer in
    let q = record p {
      cur_pos = 0;
      max_name_space = size;
      name_spaces = map (clear_name_space size) p.name_spaces;
    } in
    find_name_spaces (suc size) 0 q >>= λ r. some (record r { cur_pos = 0 })

-- `none` in place of the file's bytes: it cannot be opened.
unfoldable pub load_text : TextParser → Option (List ℕ) → Option (Bool × TextParser)
load_text p none = some (false, p)
load_text p (some bytes) =
    check_name_space (record p { file_buffer = bytes }) >>= λ q. some (true, q)
