-- ===== src/TextParser/Values/Found.antt =====
-- What the lookups give, by the words of the file.
use cpp_lockfree_core.Base.{
  ℕ, zero, suc, ◌+◌, ◌≡◌, ◌<◌, inl, inr, refl, sym, ◌∙◌, subst, true, false, List, [], ◌∷◌,
  append-nil, Option, none, some, if◌then◌else◌, length, arith, Bool-cases,
}
use cpp_lockfree_core.TextParser.{TextParser, get_next_word, copy_word, same_text}
use cpp_lockfree_core.TextParser.Values.{
  Value, Reader, Name, enter, after_name, seek, get_value, read_word, atoi, get_value_int,
  get_value_double,
}
use cpp_lockfree_core.TextParser.Values.Tokens.{
  Space, At, get_next_word-Scanned, get_next_word-end, Leads, there, word, length-Leads,
}

abbrev pub equals_sign : List ℕ
equals_sign = 61 ∷ []

-- The search of the whole file.
abbrev pub from_start : TextParser → TextParser
from_start p = record p { cur_pos = 0; max_name_space = length p.file_buffer }

pub from_start-At : (p : TextParser) → At (from_start p) p.file_buffer []
from_start-At p = record { here = sym (append-nil p.file_buffer); room = omega arith }

abbrev pub stopped : TextParser → List ℕ → TextParser
stopped p g = record p { cur_pos = p.cur_pos + length g }

-- A round of the loop, by its word.
module _ {A : Type 0} (read : Reader A) (fuel : ℕ) (p q : TextParser) (name t : List ℕ) (v : ℕ × ℕ)
    (is : get_next_word p ≡ some (some v, q)) (text : copy_word q v ≡ some t) where
  seek-next :
      seek read (suc fuel) p name
      ≡ (elim (same_text name t) as (λ _. Option (Value A × TextParser)) [
        | true ↦ after_name read q
        | false ↦ seek read fuel q name
      ])
  unfolding seek
  seek-next = rw (is, text) refl

  pub seek-hit : same_text name t ≡ true → seek read (suc fuel) p name ≡ after_name read q
  seek-hit e = seek-next ∙ rw e refl

  pub seek-miss : same_text name t ≡ false → seek read (suc fuel) p name ≡ seek read fuel q name
  seek-miss e = seek-next ∙ rw e refl

module _ {A : Type 0} (f : List ℕ → A) where
  abbrev first_of : List (List ℕ) → Value A
  first_of [] = (false, none)
  first_of (w ∷ ws) = (true, some (f w))

  abbrev after_equals : List (List ℕ) → Value A
  after_equals [] = (false, none)
  after_equals (w ∷ ws) = if same_text w equals_sign then first_of ws else (false, none)

  -- The value of a name in a list of words. When no word is the name, the result is true and there is
  -- no value.
  abbrev pub value_of : Name → List (List ℕ) → Value A
  value_of name [] = (true, none)
  value_of name (w ∷ ws) = if same_text name w then after_equals ws else value_of name ws

  read_word-first_of :
      (p : TextParser) (last : ℕ × ℕ) {tail rest bs : List ℕ} {ws : List (List ℕ)}
      → Leads tail rest bs ws
      → Space rest
      → At p bs tail
      → (q : TextParser) × (read_word f p last ≡ some (first_of ws, q))
  unfolding read_word
  read_word-first_of p last {tail} {bs = bs} (there e) space at =
      let e2 = get_next_word-end p bs tail (subst Space (sym e) space) at in
      (stopped p bs, rw e2 refl)
  read_word-first_of p last {tail} (word {w = w} {next = next} {c = c} g s plain is short e more)
        space at =
      let n =
        get_next_word-Scanned p g c w next tail s plain is short (subst (λ x. At p x tail) e at) in
      (n.q, rw (n.is, n.text) refl)

  after_name-after_equals :
      (p : TextParser) {tail rest bs : List ℕ} {ws : List (List ℕ)}
      → Leads tail rest bs ws
      → Space rest
      → At p bs tail
      → (q : TextParser) × (after_name (read_word f) p ≡ some (after_equals ws, q))
  unfolding after_name
  after_name-after_equals p {tail} {bs = bs} (there e) space at =
      let e2 = get_next_word-end p bs tail (subst Space (sym e) space) at in
      (stopped p bs, rw e2 refl)
  after_name-after_equals p {tail} (word {w = w} {next = next} {c = c} g s plain is short e more)
        space at =
      let n =
        get_next_word-Scanned p g c w next tail s plain is short (subst (λ x. At p x tail) e at) in
      let (q, r) = read_word-first_of n.q n.v more space n.at in
      elim (Bool-cases (same_text (c ∷ w) equals_sign)) [
        | inl same ↦ (q, rw (n.is, n.text, same) r)
        | inr other ↦ (n.q, rw (n.is, n.text, other) refl)
      ]

  pub seek-value_of :
      (fuel : ℕ) (p : TextParser) (name : Name) {tail rest bs : List ℕ} {ws : List (List ℕ)}
      → Leads tail rest bs ws
      → Space rest
      → At p bs tail
      → length ws < fuel
      → (q : TextParser) × (seek (read_word f) fuel p name ≡ some (value_of name ws, q))
  unfolding seek
  seek-value_of zero p name l space at few = absurd (omega arith)
  seek-value_of (suc fuel) p name {tail} {bs = bs} (there e) space at few =
      let e2 = get_next_word-end p bs tail (subst Space (sym e) space) at in
      (stopped p bs, rw e2 refl)
  seek-value_of (suc fuel) p name {tail}
        (word {w = w} {next = next} {ws = ws} {c = c} g s plain is short e more) space at few =
      let n =
        get_next_word-Scanned p g c w next tail s plain is short (subst (λ x. At p x tail) e at) in
      elim (Bool-cases (same_text name (c ∷ w))) [
        | inl same ↦
            let (q, r) = after_name-after_equals n.q more space n.at in
            (
              q,
              seek-hit (read_word f) fuel p n.q name (c ∷ w) n.v n.is n.text same
                  ∙ r
                  ∙ rw same refl,
            )
        | inr other ↦
            let (q, r) = seek-value_of fuel n.q name more space n.at (omega arith) in
            (
              q,
              seek-miss (read_word f) fuel p n.q name (c ∷ w) n.v n.is n.text other
                  ∙ r
                  ∙ rw other refl,
            )
      ]

  pub get_value-value_of :
      (p : TextParser) (name : Name) {rest : List ℕ} {ws : List (List ℕ)}
      → Leads [] rest p.file_buffer ws
      → Space rest
      → (q : TextParser) × (get_value (read_word f) p name [] ≡ some (value_of name ws, q))
  unfolding get_value enter same_text
  get_value-value_of p name {rest} {ws} leads space =
      let few = length-Leads [] rest p.file_buffer ws leads in
      seek-value_of (suc (length p.file_buffer)) (from_start p) name leads space (from_start-At p)
        (omega (arith, few))

-- The lookups of numbers in the whole file, for a file of words that are shorter than 256 bytes, with
-- space and comments between them, each word followed by a byte that ends it or by a comment: they
-- end without a fault. The first word that is the name has to be followed by an equals sign and
-- another word, which is converted and written, and the result is true; when one of these is not
-- there, nothing is written, and the result is false. When no word is the name, nothing is written,
-- and the result is true.
pub number_lookups-value_of :
    {D : Type 0} (atof : List ℕ → D) (p : TextParser) (name : Name) {rest : List ℕ}
    {ws : List (List ℕ)}
    → Leads [] rest p.file_buffer ws
    → Space rest
    → ((q : TextParser) × (get_value_int p name [] ≡ some (value_of atoi name ws, q)))
      × ((q : TextParser) × (get_value_double atof p name [] ≡ some (value_of atof name ws, q)))
unfolding get_value_int get_value_double
number_lookups-value_of atof p name leads space =
    (get_value-value_of atoi p name leads space, get_value-value_of atof p name leads space)
