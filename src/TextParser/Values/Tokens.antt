-- ===== src/TextParser/Values/Tokens.antt =====
-- A file as words with space and comments between them, and what the scanner makes of it.
use cpp_lockfree_core.Base.{
  ℕ, suc, ◌+◌, ◌-◌, ◌≡◌, ◌≤◌, ◌<◌, ◌⊎◌, inl, inr, refl, ap, ◌∙◌, true, false, List, [], ◌∷◌, ◌++◌,
  append_assoc, none, some, leb, ltb, ◌==◌, length, length-append, take, take-append, drop, arith,
}
use cpp_lockfree_core.TextParser.{
  TextParser, ends_word, between_words, at_comment, skip, skip_none_command, word_end,
  get_next_word, c_text, copy_word,
}
use cpp_lockfree_core.TextParser.Words.{drop-drop}

abbrev pub OneLine : List ℕ → Type 0
OneLine [] = Unit {0}
OneLine (c ∷ cs) = (c == 10 ≡ false) × OneLine cs

-- Bytes between words: blanks, full stops, and comments up to the end of the line.
pub data Space : List ℕ → Type 0 where
  no_space : Space []
  blank : {c : ℕ} {g : List ℕ} → between_words c ≡ true → Space g → Space (c ∷ g)
  comment :
      {bs : List ℕ} (body g : List ℕ)
      → OneLine body
      → Space g
      → bs ≡ 47 ∷ (47 ∷ (body ++ (10 ∷ g)))
      → Space bs

-- What follows a word.
abbrev pub Stops : List ℕ → Type 0
Stops [] = ⊥
Stops (c ∷ cs) = (ends_word c ≡ true) ⊎ (at_comment c cs ≡ some true)

-- The bytes are a word in front of `rest`: none of them ends it, and what follows does.
abbrev pub IsWord : List ℕ → List ℕ → Type 0
IsWord [] rest = Stops rest
IsWord (c ∷ w) rest =
    (ends_word c ≡ false)
    × (at_comment c (w ++ rest) ≡ some false)
    × (c == 0 ≡ false)
    × IsWord w rest

skip-comment :
    (max : ℕ) (body l : List ℕ) (cur : ℕ)
    → OneLine body
    → cur + length body ≤ max
    → skip max true (body ++ (10 ∷ l)) cur ≡ skip max false l (cur + length body + 1)
unfolding skip
skip-comment max [] l cur h room = ap (skip max false l) (omega arith)
skip-comment max (c ∷ body) l cur (h, hs) room =
    let inside : leb max cur ≡ false = ground arith in
    rw (h, inside)
      (skip-comment max body l (cur + 1) hs (omega arith) ∙ ap (skip max false l) (omega arith))

pub skip-Space :
    (max : ℕ) {g : List ℕ}
    → Space g
    → (l : List ℕ) (cur : ℕ) → cur + length g ≤ max
    → skip max false (g ++ l) cur ≡ skip max false l (cur + length g)
unfolding skip
skip-Space max no_space l cur room = ap (skip max false l) (omega arith)
skip-Space max (blank {c} {g} b space) l cur room =
    let inside : leb max cur ≡ false = ground arith in
    let no_slash : c == 47 ≡ false = ground (arith, b) in
    rw (inside, no_slash, b)
      (skip-Space max space l (cur + 1) (omega arith) ∙ ap (skip max false l) (omega arith))
skip-Space max (comment {bs} body g one_line space is) l cur room =
    let size : length bs ≡ suc (suc (length body + suc (length g))) =
      ap length is ∙ ap (λ n. suc (suc n)) (length-append body (10 ∷ g)) in
    let inside : leb max cur ≡ false = ground (arith, size) in
    let inside2 : leb max (cur + 1) ≡ false = ground (arith, size) in
    let start : skip max false (47 ∷ (47 ∷ (body ++ (10 ∷ (g ++ l))))) cur
        ≡ skip max true (body ++ (10 ∷ (g ++ l))) (cur + 1 + 1) =
      rw (inside, inside2) refl in
    ap (λ x. skip max false x cur)
      (ap (λ x. x ++ l) is ∙ ap (λ x. 47 ∷ (47 ∷ x)) (append_assoc body (10 ∷ g) l))
    ∙ start
    ∙ skip-comment max body (g ++ l) (cur + 1 + 1) one_line (omega (arith, size))
    ∙ skip-Space max space l (cur + 1 + 1 + length body + 1) (omega (arith, size))
    ∙ ap (skip max false l) (omega (arith, size))

word_end-IsWord :
    (w rest : List ℕ) (cur : ℕ) → IsWord w rest → word_end (w ++ rest) cur ≡ some (cur + length w)
unfolding word_end
word_end-IsWord [] [] cur h = absurd h
word_end-IsWord [] (c ∷ rest) cur (inl e) =
    let no_slash : c == 47 ≡ false = ground (arith, e) in rw (no_slash, e) (ap some (omega arith))
word_end-IsWord [] (c ∷ rest) cur (inr e) = rw e (ap some (omega arith))
word_end-IsWord (c ∷ w) rest cur (plain, no_comment, _, h) =
    rw (no_comment, plain) (word_end-IsWord w rest (cur + 1) h ∙ ap some (omega arith))

pub c_text-IsWord : (w rest : List ℕ) → IsWord w rest → c_text w ≡ w
unfolding c_text
c_text-IsWord [] rest h = refl
c_text-IsWord (c ∷ w) rest (_, _, z, h) = rw z (ap (λ x. c ∷ x) (c_text-IsWord w rest h))

-- The bytes from `m_curPos` to the end of the name space, and those behind.
pub record At (p : TextParser) (bs tail : List ℕ) : Type 0 where
  pub here : drop p.cur_pos p.file_buffer ≡ bs ++ tail
  pub room : p.max_name_space ≡ p.cur_pos + length bs

-- The next word is `w`, and then there is `rest`.
pub record Scanned (p : TextParser) (w rest tail : List ℕ) : Type 0 where
  pub v : ℕ × ℕ
  pub q : TextParser
  pub is : get_next_word p ≡ some (some v, q)
  pub text : copy_word q v ≡ some w
  pub begins : drop v.0 q.file_buffer ≡ w ++ (rest ++ tail)
  pub long : v.1 ≡ length w
  pub buffer : q.file_buffer ≡ p.file_buffer
  pub names : q.name_spaces ≡ p.name_spaces
  pub ends : q.max_name_space ≡ p.max_name_space
  pub at : At q rest tail

pub get_next_word-Scanned :
    (p : TextParser) (g : List ℕ) (c : ℕ) (w rest tail : List ℕ)
    → Space g
    → between_words c ≡ false
    → IsWord (c ∷ w) (rest ++ tail)
    → length w < 255
    → At p (g ++ ((c ∷ w) ++ rest)) tail
    → Scanned p (c ∷ w) rest tail
unfolding get_next_word skip_none_command copy_word skip
get_next_word-Scanned p g c w rest tail space plain word short at =
    let bs = (c ∷ w) ++ (rest ++ tail) in
    let start = p.cur_pos + length g in
    let whole : drop p.cur_pos p.file_buffer ≡ g ++ bs =
      at.here
      ∙ append_assoc g ((c ∷ w) ++ rest) tail
      ∙ ap (λ x. g ++ x) (append_assoc (c ∷ w) rest tail) in
    let size : p.max_name_space ≡ start + suc (length w + length rest) =
      omega (arith, at.room, length-append g ((c ∷ w) ++ rest), length-append w rest) in
    let inside : leb p.max_name_space start ≡ false = ground (arith, size) in
    let found : skip p.max_name_space false (drop p.cur_pos p.file_buffer) p.cur_pos
        ≡ some (true, start) =
      ap (λ x. skip p.max_name_space false x p.cur_pos) whole
      ∙ skip-Space p.max_name_space space bs p.cur_pos (omega (arith, size))
      ∙ rw (inside, word.1, plain) refl in
    let behind : drop start p.file_buffer ≡ bs = drop-drop p.cur_pos p.file_buffer g bs whole in
    let stop = word_end-IsWord (c ∷ w) (rest ++ tail) start word in
    let long : start + suc (length w) - start ≡ suc (length w) = omega arith in
    let fits : ltb (suc (length w)) 256 ≡ true = ground arith in
    let copied : take (suc (length w)) (drop start p.file_buffer) ≡ c ∷ w =
      ap (take (suc (length w))) behind ∙ take-append (c ∷ w) (rest ++ tail) in
    record {
      v = (start, suc (length w));
      q = record p { cur_pos = start + suc (length w) };
      is = rw (found, behind, stop, long) refl;
      text = rw (fits, copied) (ap some (c_text-IsWord (c ∷ w) (rest ++ tail) word));
      begins = behind;
      long = refl;
      buffer = refl;
      names = refl;
      ends = refl;
      at = record {
        here = drop-drop start p.file_buffer (c ∷ w) (rest ++ tail) behind;
        room = omega (arith, size);
      };
    }

-- At the end of the name space.
pub skip_none_command-end :
    (p : TextParser) (g tail : List ℕ)
    → Space g
    → At p g tail
    → skip_none_command p ≡ some (false, record p { cur_pos = p.cur_pos + length g })
unfolding skip_none_command skip
skip_none_command-end p g tail space at =
    let over : leb p.max_name_space (p.cur_pos + length g) ≡ true = ground (arith, at.room) in
    let e : skip p.max_name_space false (drop p.cur_pos p.file_buffer) p.cur_pos
        ≡ some (false, p.cur_pos + length g) =
      ap (λ x. skip p.max_name_space false x p.cur_pos) at.here
      ∙ skip-Space p.max_name_space space tail p.cur_pos (omega (arith, at.room))
      ∙ at_end p.max_name_space (p.cur_pos + length g) over tail in
    rw e refl
  where
    at_end :
        (max cur : ℕ) → leb max cur ≡ true → (l : List ℕ) → skip max false l cur ≡ some (false, cur)
    at_end max cur over [] = rw over refl
    at_end max cur over (c ∷ l) = rw over refl

pub get_next_word-end :
    (p : TextParser) (g tail : List ℕ)
    → Space g
    → At p g tail
    → get_next_word p ≡ some (none, record p { cur_pos = p.cur_pos + length g })
unfolding get_next_word
get_next_word-end p g tail space at = rw (skip_none_command-end p g tail space at) refl

-- Words, and then `rest`.
pub data Leads (tail rest : List ℕ) : List ℕ → List (List ℕ) → Type 0 where
  there : {bs : List ℕ} → bs ≡ rest → Leads tail rest bs []
  word :
      {bs w next : List ℕ} {ws : List (List ℕ)} {c : ℕ} (g : List ℕ)
      → Space g
      → between_words c ≡ false
      → IsWord (c ∷ w) (next ++ tail)
      → length w < 255
      → bs ≡ g ++ ((c ∷ w) ++ next)
      → Leads tail rest next ws
      → Leads tail rest bs ((c ∷ w) ∷ ws)

-- There are no more words than bytes.
pub length-Leads :
    (tail rest bs : List ℕ) (ws : List (List ℕ)) → Leads tail rest bs ws → length ws ≤ length bs
length-Leads tail rest bs _ (there e) = omega arith
length-Leads tail rest bs _
      (word {w = w} {next = next} {ws = ws} {c = c} g space plain is short e more) =
    omega (
      arith,
      ap length e,
      length-append g ((c ∷ w) ++ next),
      length-append w next,
      length-Leads tail rest next ws more,
    )
