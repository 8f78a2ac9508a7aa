-- ===== src/TextParser/Words.antt =====
-- What the scanner takes for a word, and where it reads behind the file.
use cpp_lockfree_core.Base.{
  ℕ, zero, suc, ◌+◌, ◌-◌, ◌≡◌, ◌<◌, refl, ap, ◌∙◌, true, false, List, [], ◌∷◌, none, some, leb,
  ◌==◌, length, drop, arith,
}
use cpp_lockfree_core.Base.{drop-append, ◌++◌}
use cpp_lockfree_core.TextParser.{
  TextParser, ends_word, between_words, skip, skip_none_command, word_end, get_next_word,
}

-- Bytes that are part of a word wherever they stand.
abbrev pub Plain : List ℕ → Type 0
Plain [] = Unit {0}
Plain (c ∷ cs) = (c == 47 ≡ false) × (between_words c ≡ false) × Plain cs

word_end-overreads : (cs : List ℕ) (cur : ℕ) → Plain cs → word_end cs cur ≡ none
unfolding word_end
word_end-overreads [] cur p = refl
word_end-overreads (c ∷ cs) cur (slash, between, p) =
    let e : ends_word c ≡ false = ground (arith, between) in
    rw (slash, e) (word_end-overreads cs (cur + 1) p)

-- A file whose last word runs to its end is read behind its end: if the bytes from `m_curPos` on are
-- all part of a word, one at least, and the position is in the name space, `getNextWord` goes on
-- past the buffer.
pub get_next_word_overreads :
    (p : TextParser) (c : ℕ) (cs : List ℕ)
    → drop p.cur_pos p.file_buffer ≡ c ∷ cs
    → Plain (c ∷ cs)
    → p.cur_pos < p.max_name_space
    → get_next_word p ≡ none
unfolding get_next_word skip_none_command skip
get_next_word_overreads p c cs e plain inside =
    let room : leb p.max_name_space p.cur_pos ≡ false = ground arith in
    let stop = word_end-overreads (c ∷ cs) p.cur_pos plain in
    rw (e, room, plain.0, plain.1, e, stop) refl

abbrev pub Blank : List ℕ → Type 0
Blank [] = Unit {0}
Blank (c ∷ cs) = (between_words c ≡ true) × Blank cs

skip-Blank :
    (max : ℕ) (bs : List ℕ) (c : ℕ) (cs : List ℕ) (cur : ℕ)
    → Blank bs
    → c == 47 ≡ false
    → between_words c ≡ false
    → cur + length bs < max
    → skip max false (bs ++ (c ∷ cs)) cur ≡ some (true, cur + length bs)
unfolding skip
skip-Blank max [] c cs cur b slash plain room =
    let inside : leb max cur ≡ false = ground arith in
    rw (inside, slash, plain) (ap (λ n. some (true, n)) (omega arith))
skip-Blank max (d ∷ bs) c cs cur (b, bl) slash plain room =
    let inside : leb max cur ≡ false = ground arith in
    let no_slash : d == 47 ≡ false = ground (arith, b) in
    rw (inside, no_slash, b)
      (skip-Blank max bs c cs (cur + 1) bl slash plain (omega arith)
        ∙ ap (λ n. some (true, n)) (omega arith))

word_end-finds :
    (w : List ℕ) (sep : ℕ) (rest : List ℕ) (cur : ℕ)
    → Plain w
    → ends_word sep ≡ true
    → word_end (w ++ (sep ∷ rest)) cur ≡ some (cur + length w)
unfolding word_end
word_end-finds [] sep rest cur p e =
    let no_slash : sep == 47 ≡ false = ground (arith, e) in rw (no_slash, e) (ap some (omega arith))
word_end-finds (c ∷ w) sep rest cur (slash, between, p) e =
    let plain : ends_word c ≡ false = ground (arith, between) in
    rw (slash, plain) (word_end-finds w sep rest (cur + 1) p e ∙ ap some (omega arith))

pub drop-drop : (a : ℕ) (l bs t : List ℕ) → drop a l ≡ bs ++ t → drop (a + length bs) l ≡ t
drop-drop zero l bs t e =
    let n : 0 + length bs ≡ length bs = omega arith in
    ap (λ n. drop n l) n ∙ ap (drop (length bs)) e ∙ drop-append bs t
drop-drop (suc a) [] [] t e =
    let n : suc a + 0 ≡ suc a = omega arith in ap (λ n. drop {A = ℕ} n []) n ∙ e
drop-drop (suc a) [] (b ∷ bs) t e = cc
drop-drop (suc a) (x ∷ l) bs t e =
    let n : suc a + length bs ≡ suc (a + length bs) = omega arith in
    ap (λ n. drop n (x ∷ l)) n ∙ drop-drop a l bs t e

-- `getNextWord` skips the bytes between words and finds the next word: if blanks, a word without
-- slashes and full stops, and a byte that ends words follow `m_curPos`, and the word starts in the
-- name space, it gives the word's start and length, and stops behind the word.
pub get_next_word_finds :
    (p : TextParser) (bs : List ℕ) (c : ℕ) (w : List ℕ) (sep : ℕ) (rest : List ℕ)
    → drop p.cur_pos p.file_buffer ≡ bs ++ ((c ∷ w) ++ (sep ∷ rest))
    → Blank bs
    → Plain (c ∷ w)
    → ends_word sep ≡ true
    → p.cur_pos + length bs < p.max_name_space
    → get_next_word p
      ≡ some (
        some (p.cur_pos + length bs, suc (length w)),
        record p { cur_pos = p.cur_pos + length bs + suc (length w) },
      )
unfolding get_next_word skip_none_command
get_next_word_finds p bs c w sep rest e blank plain ends room =
    let start = p.cur_pos + length bs in
    let found =
      skip-Blank p.max_name_space bs c (w ++ (sep ∷ rest)) p.cur_pos blank plain.0 plain.1 room in
    let behind = drop-drop p.cur_pos p.file_buffer bs ((c ∷ w) ++ (sep ∷ rest)) e in
    let stop = word_end-finds (c ∷ w) sep rest start plain ends in
    let long : start + suc (length w) - start ≡ suc (length w) = omega arith in
    rw (e, found, behind, stop, long) refl
