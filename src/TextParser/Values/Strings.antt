-- ===== src/TextParser/Values/Strings.antt =====
-- What the lookups of a string give.
use cpp_lockfree_core.Base.{
  ℕ, suc, ◌+◌, ◌-◌, ◌≡◌, ◌<◌, refl, ap, ◌∙◌, subst, true, false, List, [], ◌∷◌, ◌++◌, append_assoc,
  Option, none, some, ltb, leb, ◌==◌, length, length-append, take, take-append, drop, arith,
}
use cpp_lockfree_core.TextParser.{
  TextParser, between_words, at_comment, skip, skip_none_command, copy_word, c_text, same_text,
  string_end, get_string_word,
}
use cpp_lockfree_core.TextParser.Words.{drop-drop}
use cpp_lockfree_core.TextParser.Values.{
  Value, Name, enter, get_value, read_string, get_value_string, get_value_w_string,
}
use cpp_lockfree_core.TextParser.Values.Tokens.{
  Space, At, Leads, length-Leads, skip-Space, skip_none_command-end,
}
use cpp_lockfree_core.TextParser.Values.Found.{equals_sign, from_start, from_start-At, stopped}
use cpp_lockfree_core.TextParser.Values.Reached.{Asks, seek-Reached}

-- No quotation mark and no null byte.
abbrev pub Quotable : List ℕ → Type 0
Quotable [] = Unit {0}
Quotable (c ∷ s) = (c == 34 ≡ false) × (c == 0 ≡ false) × Quotable s

string_end-Quotable :
    (s rest : List ℕ) (cur : ℕ)
    → Quotable s
    → string_end (s ++ (34 ∷ rest)) cur ≡ some (cur + length s)
unfolding string_end
string_end-Quotable [] rest cur h = ap some (omega arith)
string_end-Quotable (c ∷ s) rest cur (q, _, h) =
    rw q (string_end-Quotable s rest (cur + 1) h ∙ ap some (omega arith))

c_text-Quotable : (s : List ℕ) → Quotable s → c_text s ≡ s
unfolding c_text
c_text-Quotable [] h = refl
c_text-Quotable (c ∷ s) (_, z, h) = rw z (ap (λ x. c ∷ x) (c_text-Quotable s h))

module _ {A : Type 0} (f : List ℕ → A) where
  read_string-in_quotes :
      (p : TextParser) (last : ℕ × ℕ) (g s more tail : List ℕ)
      → Space g
      → Quotable s
      → length s < 256
      → At p (g ++ (34 ∷ (s ++ (34 ∷ more)))) tail
      → (q : TextParser) × (read_string f p last ≡ some ((true, some (f s)), q))
  unfolding read_string get_string_word skip_none_command copy_word skip
  read_string-in_quotes p last g s more tail space fine short at =
      let bs = 34 ∷ (s ++ (34 ∷ (more ++ tail))) in
      let start = p.cur_pos + length g in
      let whole : drop p.cur_pos p.file_buffer ≡ g ++ bs =
        at.here
        ∙ append_assoc g (34 ∷ (s ++ (34 ∷ more))) tail
        ∙ ap (λ x. g ++ (34 ∷ x)) (append_assoc s (34 ∷ more) tail) in
      let size : start < p.max_name_space =
        omega (arith, at.room, length-append g (34 ∷ (s ++ (34 ∷ more)))) in
      let inside : leb p.max_name_space start ≡ false = ground arith in
      let found : skip p.max_name_space false (drop p.cur_pos p.file_buffer) p.cur_pos
          ≡ some (true, start) =
        ap (λ x. skip p.max_name_space false x p.cur_pos) whole
        ∙ skip-Space p.max_name_space space bs p.cur_pos (omega arith)
        ∙ rw inside refl in
      let behind : drop start p.file_buffer ≡ bs = drop-drop p.cur_pos p.file_buffer g bs whole in
      let text : drop (start + 1) p.file_buffer ≡ s ++ (34 ∷ (more ++ tail)) =
        drop-drop start p.file_buffer (34 ∷ []) (s ++ (34 ∷ (more ++ tail))) behind in
      let stop = string_end-Quotable s (more ++ tail) (start + 1) fine in
      let long : start + 1 + length s - (start + 1) ≡ length s = omega arith in
      let fits : ltb (length s) 256 ≡ true = ground arith in
      let copied : take (length s) (drop (start + 1) p.file_buffer) ≡ s =
        ap (take (length s)) text ∙ take-append s (34 ∷ (more ++ tail)) in
      (
        record p { cur_pos = start + 1 + length s },
        rw (found, behind, stop, long, fits, copied, c_text-Quotable s fine) refl,
      )

  read_string-at_end :
      (p : TextParser) (last : ℕ × ℕ) (g tail t : List ℕ)
      → Space g
      → At p g tail
      → copy_word p last ≡ some t
      → (q : TextParser) × (read_string f p last ≡ some ((true, some (f t)), q))
  unfolding read_string get_string_word copy_word
  read_string-at_end p last g tail t space at text =
      (stopped p g, rw (skip_none_command-end p g tail space at, text) refl)

  read_string-unquoted :
      (p : TextParser) (last : ℕ × ℕ) (g more tail : List ℕ) (c : ℕ)
      → Space g
      → between_words c ≡ false
      → at_comment c (more ++ tail) ≡ some false
      → c == 34 ≡ false
      → At p (g ++ (c ∷ more)) tail
      → (q : TextParser) × (read_string f p last ≡ some ((false, none), q))
  unfolding read_string get_string_word skip_none_command skip
  read_string-unquoted p last g more tail c space plain no_comment no_quote at =
      let bs = c ∷ (more ++ tail) in
      let start = p.cur_pos + length g in
      let whole : drop p.cur_pos p.file_buffer ≡ g ++ bs =
        at.here ∙ append_assoc g (c ∷ more) tail in
      let size : start < p.max_name_space = omega (arith, at.room, length-append g (c ∷ more)) in
      let inside : leb p.max_name_space start ≡ false = ground arith in
      let found : skip p.max_name_space false (drop p.cur_pos p.file_buffer) p.cur_pos
          ≡ some (true, start) =
        ap (λ x. skip p.max_name_space false x p.cur_pos) whole
        ∙ skip-Space p.max_name_space space bs p.cur_pos (omega arith)
        ∙ rw (inside, no_comment, plain) refl in
      let behind : drop start p.file_buffer ≡ bs = drop-drop p.cur_pos p.file_buffer g bs whole in
      (record p { cur_pos = start }, rw (found, behind, no_quote) refl)

-- What is behind the equals sign, and the string that is read from it, if one is. At the end of the
-- file it is the equals sign.
pub data Reads (tail rest : List ℕ) : Option (List ℕ) → Type 0 where
  in_quotes :
      (g s more : List ℕ)
      → Space g
      → Quotable s
      → length s < 256
      → rest ≡ g ++ (34 ∷ (s ++ (34 ∷ more)))
      → Reads tail rest (some s)
  at_end : Space rest → Reads tail rest (some equals_sign)
  unquoted :
      (g more : List ℕ) (c : ℕ)
      → Space g
      → between_words c ≡ false
      → at_comment c (more ++ tail) ≡ some false
      → c == 34 ≡ false
      → rest ≡ g ++ (c ∷ more)
      → Reads tail rest none

abbrev pub returned : {A : Type 0} → (List ℕ → A) → Option (List ℕ) → Value A
returned f none = (false, none)
returned f (some s) = (true, some (f s))

module _ {A : Type 0} (f : List ℕ → A) where
  read_string-Reads :
      (p : TextParser) (last : ℕ × ℕ) {tail rest : List ℕ} {o : Option (List ℕ)}
      → Reads tail rest o
      → At p rest tail
      → copy_word p last ≡ some equals_sign
      → (q : TextParser) × (read_string f p last ≡ some (returned f o, q))
  read_string-Reads p last {tail} (in_quotes g s more space fine short e) at text =
      read_string-in_quotes f p last g s more tail space fine short (subst (λ x. At p x tail) e at)
  read_string-Reads p last {tail} {rest} (at_end space) at text =
      read_string-at_end f p last rest tail equals_sign space at text
  read_string-Reads p last {tail} (unquoted g more c space plain no_comment no_quote e) at text =
      read_string-unquoted f p last g more tail c space plain no_comment no_quote
        (subst (λ x. At p x tail) e at)

  get_value-Reads :
      (p : TextParser) (name : Name) {rest : List ℕ} {ws : List (List ℕ)} {o : Option (List ℕ)}
      → Leads [] rest p.file_buffer ws
      → Asks name ws
      → Reads [] rest o
      → (q : TextParser) × (get_value (read_string f) p name [] ≡ some (returned f o, q))
  unfolding get_value enter same_text
  get_value-Reads p name {rest} {ws} leads asks reads =
      let few = length-Leads [] rest p.file_buffer ws leads in
      let r =
        seek-Reached (read_string f) (suc (length p.file_buffer)) (from_start p) name leads asks
          (from_start-At p) (omega (arith, few)) in
      let (q, e) = read_string-Reads r.q r.v reads r.at r.text in (q, r.is ∙ e)

-- The lookups of strings in the whole file, for a file that starts with words that have no null byte
-- and are shorter than 256 bytes, the last of them an equals sign behind the first that is the name: what follows decides.
-- A string in quotation marks, shorter than 256 bytes and with no null byte, is converted and
-- written, and the result is true. When something else follows, nothing is written, and the result is
-- false. When the file ends there, the equals sign is converted and written, and the result is true.
pub string_lookups-Reads :
    {W : Type 0} (mbstowcs : List ℕ → W) (p : TextParser) (name : Name) {rest : List ℕ}
    {ws : List (List ℕ)} {o : Option (List ℕ)}
    → Leads [] rest p.file_buffer ws
    → Asks name ws
    → Reads [] rest o
    → ((q : TextParser) × (get_value_string p name [] ≡ some (returned (λ t. t) o, q)))
      × ((q : TextParser) × (get_value_w_string mbstowcs p name [] ≡ some (returned mbstowcs o, q)))
unfolding get_value_string get_value_w_string
string_lookups-Reads mbstowcs p name leads asks reads = (
  get_value-Reads (λ t. t) p name leads asks reads,
  get_value-Reads mbstowcs p name leads asks reads,
)
