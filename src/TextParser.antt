-- ===== src/TextParser.antt =====
-- The scanner of CppLockFreeCore/CTextParser.h and CTextParser.cpp. `none` is a read behind the
-- file's buffer, or an access outside an array. `m_fileSize` is the length of the buffer. The arrays
-- of the name spaces hold what was in memory until `checkNameSpace` writes them.
pub mod Words
pub mod Values
pub mod NameSpaces
use cpp_lockfree_core.Base.{
  ℕ, ◌+◌, ◌-◌, Bool, true, false, not, ◌&&◌, ◌||◌, List, [], ◌∷◌, Option, none, some, leb, ◌==◌,
  if◌then◌else◌, drop, take, ltb, ◌>>=◌,
}

-- The elements of `m_nsPos`, `m_nsMaxPos` and `m_nsStr` at one index.
pub record NameSpace : Type 0 where
  pub pos : ℕ
  pub max_pos : ℕ
  pub text : List ℕ

pub record TextParser : Type 0 where
  pub file_buffer : List ℕ
  pub cur_pos : ℕ
  pub max_name_space : ℕ
  pub name_spaces : List NameSpace

-- Comma, space, backspace, tab, line feed and carriage return; between words also the full stop.
abbrev pub ends_word : ℕ → Bool
ends_word c = c == 44 || (c == 32 || (c == 8 || (c == 9 || (c == 10 || c == 13))))

abbrev pub between_words : ℕ → Bool
between_words c = c == 46 || ends_word c

-- Whether `*(chpBuffer + 1)` is a slash.
abbrev pub next_slash : List ℕ → Option Bool
next_slash [] = none
next_slash (c ∷ cs) = some (c == 47)

-- Whether a comment starts here: the second byte is read only behind a slash.
abbrev pub at_comment : ℕ → List ℕ → Option Bool
at_comment c cs = if c == 47 then next_slash cs else some false

-- The loops of `skipNoneCommand`, the inner one if `in_comment`, on the bytes from `cur` on: the
-- result and the new `m_curPos`.
unfoldable pub skip : ℕ → (in_comment : Bool) → List ℕ → ℕ → Option (Bool × ℕ)
skip max false [] cur = if leb max cur then some (false, cur) else none
skip max false (c ∷ cs) cur =
    let comment = skip max true cs (cur + 1) in
    let more = skip max false cs (cur + 1) in
    if leb max cur
    then some (false, cur)
    else (at_comment c cs >>= λ b.
        if b then comment else if between_words c then more else some (true, cur))
skip max true [] cur = none
skip max true (c ∷ cs) cur =
    let comment = skip max true cs (cur + 1) in
    let more = skip max false cs (cur + 1) in
    if c == 10 then more else if leb max cur then some (false, cur) else comment

unfoldable pub skip_none_command : TextParser → Option (Bool × TextParser)
skip_none_command p =
    skip p.max_name_space false (drop p.cur_pos p.file_buffer) p.cur_pos >>= λ (found, cur).
    some (found, record p { cur_pos = cur })

-- The loop of `getNextWord`: where the word ends.
unfoldable pub word_end : List ℕ → ℕ → Option ℕ
word_end [] cur = none
word_end (c ∷ cs) cur =
    let more = word_end cs (cur + 1) in
    at_comment c cs >>= λ b. if b then some cur else if ends_word c then some cur else more

-- The word as its start and its length.
unfoldable pub get_next_word : TextParser → Option (Option (ℕ × ℕ) × TextParser)
get_next_word p = skip_none_command p >>= λ (found, q).
    let stop = word_end (drop q.cur_pos q.file_buffer) q.cur_pos in
    if found
    then (stop >>= λ cur. some (some (q.cur_pos, cur - q.cur_pos), record q { cur_pos = cur }))
    else some (none, q)

-- The loop of `getStringWord`: where the closing quotation mark is.
unfoldable pub string_end : List ℕ → ℕ → Option ℕ
string_end [] cur = none
string_end (c ∷ cs) cur = let more = string_end cs (cur + 1) in if c == 34 then some cur else more

-- The string behind a quotation mark at `cur`.
abbrev pub quoted : List ℕ → ℕ → Option (Bool × Option (ℕ × ℕ) × ℕ)
quoted [] cur = none
quoted (c ∷ cs) cur =
    if c == 34
    then (string_end cs (cur + 1) >>= λ stop. some (true, some (cur + 1, stop - (cur + 1)), stop))
    else some (false, none, cur)

-- The result and the string as its start and its length; at the end of the name space the result is
-- true and the caller's variables are left as they are.
unfoldable pub get_string_word : TextParser → Option (Bool × Option (ℕ × ℕ) × TextParser)
get_string_word p = skip_none_command p >>= λ (found, q).
    let word = quoted (drop q.cur_pos q.file_buffer) q.cur_pos in
    if found
    then (word >>= λ (ok, w, cur). some (ok, w, record q { cur_pos = cur }))
    else some (true, none, q)

-- A C string ends at its first null byte.
unfoldable pub c_text : List ℕ → List ℕ
c_text [] = []
c_text (c ∷ cs) = if c == 0 then [] else c ∷ c_text cs

-- The word as the string in `chWord`, whose 256 bytes must hold it with a null byte at its end.
unfoldable pub copy_word : TextParser → ℕ × ℕ → Option (List ℕ)
copy_word p (start, len) =
    if ltb len 256 then some (c_text (take len (drop start p.file_buffer))) else none

-- `0 == strcmp(s, t)`.
unfoldable pub same_text : List ℕ → List ℕ → Bool
same_text [] [] = true
same_text [] (d ∷ t) = false
same_text (c ∷ s) [] = false
same_text (c ∷ s) (d ∷ t) = c == d && same_text s t
