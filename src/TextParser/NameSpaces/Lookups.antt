-- ===== src/TextParser/NameSpaces/Lookups.antt =====
-- What the lookups of numbers give in a file that has been loaded.
use cpp_lockfree_core.Base.{
  ℕ, zero, suc, ◌≡◌, ◌≤◌, ◌⊎◌, inl, inr, refl, sym, ap, ◌∙◌, subst, Bool, true, false, List, [],
  ◌∷◌, ◌++◌, append-nil, map, none, some, if◌then◌else◌, length, length-append, length-drop, drop,
  arith, Bool-cases,
}
use cpp_lockfree_core.TextParser.{NameSpace, TextParser, same_text}
use cpp_lockfree_core.TextParser.Values.{
  Value, Name, enter, enter_named, seek, get_value, read_word, atoi, get_value_int,
  get_value_double,
}
use cpp_lockfree_core.TextParser.Values.Tokens.{Space, At, Leads, length-Leads}
use cpp_lockfree_core.TextParser.Values.Found.{value_of, seek-value_of, get_value-value_of}
use cpp_lockfree_core.TextParser.NameSpaces.{
  find_name_spaces, clear_name_space, check_name_space, load_text,
}
use cpp_lockfree_core.TextParser.NameSpaces.Sections.{Sections}
use cpp_lockfree_core.TextParser.NameSpaces.Noting.{find_name_spaces-Noted}
use cpp_lockfree_core.TextParser.NameSpaces.Filed.{AllFiled, none_filed, filed, AllWhole, Noted}

-- No element has the name.
abbrev pub Unnamed : Name → List NameSpace → Type 0
Unnamed ns [] = Unit {0}
Unnamed ns (e ∷ es) = (same_text ns e.text ≡ false) × Unnamed ns es

module _ {A : Type 0} (f : List ℕ → A) (name ns : Name) where
  -- The value in the last name space of the name, or `v`.
  abbrev pub in_sections : List (List ℕ × List (List ℕ)) → Value A → Value A
  in_sections [] v = v
  in_sections ((title, ws) ∷ ss) v =
      in_sections ss (if same_text ns title then value_of f name ws else v)

  -- The value of the name in the name space, or in the whole file.
  abbrev pub wanted : List (List ℕ) → List (List ℕ × List (List ℕ)) → Value A
  wanted ws ss = if same_text ns [] then value_of f name ws else in_sections ss (false, none)

  -- The part of the file that is searched, and what is found there.
  data Entered (buffer : List ℕ) : Bool × TextParser → Value A → Type 0 where
    outside : {q : TextParser} → q.file_buffer ≡ buffer → Entered buffer (false, q) (false, none)
    inside :
        {q : TextParser} {tail rest bs : List ℕ} {ws : List (List ℕ)} {v : Value A}
        → q.file_buffer ≡ buffer
        → At q bs tail
        → Leads tail rest bs ws
        → Space rest
        → v ≡ value_of f name ws
        → Entered buffer (true, q) v

  Entered-buffer :
      {buffer : List ℕ} {st : Bool × TextParser} {v : Value A}
      → Entered buffer st v
      → st.1.file_buffer ≡ buffer
  Entered-buffer (outside e) = e
  Entered-buffer (inside e at l s is) = e

  enter_named-Entered :
      {buffer : List ℕ} {es : List NameSpace} {ss : List (List ℕ × List (List ℕ))}
      (st : Bool × TextParser) (v : Value A)
      → AllFiled buffer es ss
      → Entered buffer st v
      → Entered buffer (enter_named ns es st) (in_sections ss v)
  enter_named-Entered st v none_filed h = h
  enter_named-Entered {buffer} st v (filed {e} {s} {es} {ss} here more) h =
      let q = record st.1 { cur_pos = e.pos; max_name_space = e.max_pos } in
      let same = ap (same_text ns) here.text in
      let at : At q here.bs here.tail = record {
        here = ap (drop e.pos) (Entered-buffer h) ∙ here.here;
        room = here.room;
      } in
      elim (Bool-cases (same_text ns s.0)) [
        | inl yes_title ↦
            rw (same, yes_title)
              (enter_named-Entered (true, q) (value_of f name s.1) more
                (inside (Entered-buffer h) at here.leads here.space refl))
        | inr no_title ↦ rw (same, no_title) (enter_named-Entered st v more h)
      ]

  enter_named-append :
      (a b : List NameSpace) (st : Bool × TextParser)
      → enter_named ns (a ++ b) st ≡ enter_named ns b (enter_named ns a st)
  enter_named-append [] b st = refl
  enter_named-append (e ∷ a) b st = enter_named-append a b (
      if same_text ns e.text
      then (true, record st.1 { cur_pos = e.pos; max_name_space = e.max_pos })
      else st)

  enter_named-Unnamed :
      (es : List NameSpace) (st : Bool × TextParser) → Unnamed ns es → enter_named ns es st ≡ st
  enter_named-Unnamed [] st u = refl
  enter_named-Unnamed (e ∷ es) st (other, u) = rw other (enter_named-Unnamed es st u)

  -- There are not more words than bytes in the file.
  seek-Entered :
      {buffer : List ℕ} {st : Bool × TextParser} {v : Value A} (p : TextParser)
      → Entered buffer st v
      → (q : TextParser) × ((if st.0
            then seek (read_word f) (suc (length buffer)) st.1 name
            else some ((false, none), p))
          ≡ some (v, q))
  seek-Entered p (outside e) = (p, refl)
  seek-Entered {buffer} p (inside {q} {tail} {rest} {bs} {ws} {v} e at leads space is) =
      let few : length ws ≤ length buffer = omega (
        arith,
        length-Leads tail rest bs ws leads,
        ap length at.here,
        length-append bs tail,
        length-drop q.cur_pos q.file_buffer,
        ap length e,
      ) in
      let (r, found) =
        seek-value_of f (suc (length buffer)) q name leads space at (omega (arith, few)) in
      (r, found ∙ ap (λ x. some (x, r)) (sym is))

  -- The lookup in a name space.
  get_value-in_sections :
      (p : TextParser) (es old : List NameSpace) {ss : List (List ℕ × List (List ℕ))}
      → AllFiled p.file_buffer es ss
      → p.name_spaces ≡ es ++ old
      → Unnamed ns old
      → same_text ns [] ≡ false
      → (q : TextParser) × (get_value (read_word f) p name ns
          ≡ some (in_sections ss (false, none), q))
  unfolding get_value enter
  get_value-in_sections p es old {ss} all names u named =
      let st = enter_named ns es (false, p) in
      let entered : enter_named ns p.name_spaces (false, p) ≡ st =
        ap (λ l. enter_named ns l (false, p)) names
        ∙ enter_named-append es old (false, p)
        ∙ enter_named-Unnamed old st u in
      let (q, e) =
        seek-Entered p (enter_named-Entered (false, p) (false, none) all (outside refl)) in
      let is : enter p ns ≡ st = rw named entered in
      (
        q,
        ap
              (λ (x : Bool × TextParser).
                if x.0
                then seek (read_word f) (suc (length p.file_buffer)) x.1 name
                else some ((false, none), p))
              is
            ∙ e,
      )

AllWhole-clear : (size : ℕ) (l : List NameSpace) → AllWhole size (map (clear_name_space size) l)
AllWhole-clear size [] = tt
AllWhole-clear size (e ∷ l) = (refl, AllWhole-clear size l)

length-clear : (size : ℕ) (l : List NameSpace) → length (map (clear_name_space size) l) ≡ length l
length-clear size [] = refl
length-clear size (e ∷ l) = ap suc (length-clear size l)

Unnamed-clear :
    (ns : Name) (size k : ℕ) (l : List NameSpace)
    → Unnamed ns (drop k l)
    → Unnamed ns (drop k (map (clear_name_space size) l))
Unnamed-clear ns size zero [] u = tt
Unnamed-clear ns size zero (e ∷ l) (h, u) = (h, Unnamed-clear ns size zero l u)
Unnamed-clear ns size (suc k) [] u = tt
Unnamed-clear ns size (suc k) (e ∷ l) u = Unnamed-clear ns size k l u

module _ {bytes rest : List ℕ} {ws : List (List ℕ)} {ss : List (List ℕ × List (List ℕ))}
    (p : TextParser) (leads : Leads [] rest bytes ws) (space : Space rest)
    (sections : Sections ws ss) (room : length ss ≤ length p.name_spaces) where
  abbrev cleared : TextParser
  cleared = record p {
    file_buffer = bytes;
    cur_pos = 0;
    max_name_space = length bytes;
    name_spaces = map (clear_name_space (length bytes)) p.name_spaces;
  }

  loaded_names :
      Noted
        (find_name_spaces (suc (length bytes)) 0 cleared)
        cleared
        []
        (map (clear_name_space (length bytes)) p.name_spaces)
        ss
  loaded_names =
      find_name_spaces-Noted (suc (length bytes)) 0 cleared rest bytes []
        (map (clear_name_space (length bytes)) p.name_spaces) leads space sections
        (record { here = sym (append-nil bytes); room = omega arith }) refl refl
        (omega (arith, room, length-clear (length bytes) p.name_spaces))
        (AllWhole-clear (length bytes) p.name_spaces)
        (omega (arith, length-Leads [] rest bytes ws leads))

  abbrev loaded : TextParser
  loaded = record loaded_names.q { cur_pos = 0 }

  load_text-loaded : load_text p (some bytes) ≡ some (true, loaded)
  unfolding load_text check_name_space
  load_text-loaded = rw (loaded_names.is) refl

  get_value-wanted :
      {A : Type 0} (f : List ℕ → A) (name ns : Name)
      → (ns ≡ []) ⊎ Unnamed ns (drop (length ss) p.name_spaces)
      → (q : TextParser) × (get_value (read_word f) loaded name ns
          ≡ some (wanted f name ns ws ss, q))
  unfolding same_text
  get_value-wanted f name [] u =
      get_value-value_of f loaded name
        (subst (λ b. Leads [] rest b ws) (sym loaded_names.buffer) leads) space
  get_value-wanted f name (c ∷ ns) (inl e) = absurd (cc)
  get_value-wanted f name (c ∷ ns) (inr u) =
      get_value-in_sections f name (c ∷ ns) loaded loaded_names.es
        (drop (length ss) (map (clear_name_space (length bytes)) p.name_spaces))
        (subst (λ b. AllFiled b loaded_names.es ss) (sym loaded_names.buffer) loaded_names.all)
        loaded_names.names (Unnamed-clear (c ∷ ns) (length bytes) (length ss) p.name_spaces u) refl

-- For a file of words that have no null byte and are shorter than 256 bytes, with space and comments
-- between them, each word followed by a byte that ends it or by a comment, and with no more name
-- spaces than the parser has room for; and for the empty name of a name space, or one that differs
-- from every name still in memory behind the name spaces of this file: `loadText` returns true, and
-- then `getValueInt` and `getValueDouble` end without a fault. They search the words of the last name
-- space of the given name, or of the whole file when the name is empty. The first word that is the
-- wanted name has to be followed by an equals sign and another word, which is converted and written,
-- and the result is true; when one of these is not there, nothing is written, and the result is
-- false. When no word is the wanted name, nothing is written, and the result is true. When the file
-- has no name space of the given name, nothing is written, and the result is false.
pub loaded_number_lookups :
    {D : Type 0} (atof : List ℕ → D) (p : TextParser) (name ns : Name) {bytes rest : List ℕ}
    {ws : List (List ℕ)} {ss : List (List ℕ × List (List ℕ))}
    → Leads [] rest bytes ws
    → Space rest
    → Sections ws ss
    → length ss ≤ length p.name_spaces
    → (ns ≡ []) ⊎ Unnamed ns (drop (length ss) p.name_spaces)
    → (p' : TextParser) × (load_text p (some bytes) ≡ some (true, p'))
      × ((q : TextParser) × (get_value_int p' name ns ≡ some (wanted atoi name ns ws ss, q)))
      × ((q : TextParser) × (get_value_double atof p' name ns
            ≡ some (wanted atof name ns ws ss, q)))
unfolding get_value_int get_value_double
loaded_number_lookups atof p name ns leads space sections room u = (
  loaded p leads space sections room,
  load_text-loaded p leads space sections room,
  get_value-wanted p leads space sections room atoi name ns u,
  get_value-wanted p leads space sections room atof name ns u,
)
