-- ===== src/TextParser/NameSpaces/Filed.antt =====
-- The name spaces of a file are noted one after the other.
use cpp_lockfree_core.Base.{
  ℕ, suc, ◌+◌, ◌-◌, ◌≡◌, ◌<◌, refl, sym, ap, ap₂, ◌∙◌, subst, Bool, true, false, List, [], ◌∷◌,
  ◌++◌, append_assoc, Option, some, ltb, ◌==◌, length, take, take-append, drop, get_elem?, set,
  arith, ◌>>=◌,
}
use cpp_lockfree_core.TextParser.{NameSpace, TextParser, get_next_word, copy_word}
use cpp_lockfree_core.TextParser.Words.{drop-drop}
use cpp_lockfree_core.TextParser.Values.Tokens.{Space, IsWord, c_text-IsWord, Scanned, Leads}
use cpp_lockfree_core.TextParser.NameSpaces.{
  put, copy_name, opens, open_name_space, find_name_spaces,
}
use cpp_lockfree_core.TextParser.NameSpaces.Sections.{get_elem?-middle, set-middle, get_elem?-drop}

-- The element holds the name, and the part of the file with the words.
pub record Filed (buffer : List ℕ) (e : NameSpace) (s : List ℕ × List (List ℕ)) : Type 0 where
  pub text : e.text ≡ s.0
  pub bs : List ℕ
  pub tail : List ℕ
  pub rest : List ℕ
  pub here : drop e.pos buffer ≡ bs ++ tail
  pub room : e.max_pos ≡ e.pos + length bs
  pub leads : Leads tail rest bs s.1
  pub space : Space rest

pub data AllFiled (buffer : List ℕ) : List NameSpace → List (List ℕ × List (List ℕ)) → Type 0 where
  none_filed : AllFiled buffer [] []
  filed :
      {e : NameSpace} {s : List ℕ × List (List ℕ)} {es : List NameSpace}
      {ss : List (List ℕ × List (List ℕ))}
      → Filed buffer e s
      → AllFiled buffer es ss
      → AllFiled buffer (e ∷ es) (s ∷ ss)

-- The elements end where the file does.
abbrev pub AllWhole : ℕ → List NameSpace → Type 0
AllWhole size [] = Unit {0}
AllWhole size (e ∷ es) = (e.max_pos ≡ size) × AllWhole size es

pub put-middle :
    (i : ℕ) (f : NameSpace → NameSpace) (p : TextParser) (done : List NameSpace) (e : NameSpace)
    (fresh : List NameSpace)
    → p.name_spaces ≡ done ++ (e ∷ fresh)
    → length done ≡ i
    → put i f p ≡ some (record p { name_spaces = done ++ (f e ∷ fresh) })
put-middle i f p done e fresh names size =
    let write = λ (l : List NameSpace) (k : ℕ).
      get_elem? l k >>= λ x. some (record p { name_spaces = set l k (f x) }) in
    ap₂ write names (sym size)
    ∙ rw (get_elem?-middle done e fresh)
        (ap (λ l. some (record p { name_spaces = l })) (set-middle done e (f e) fresh))

pub find-next :
    (fuel i : ℕ) (p q : TextParser) (v : ℕ × ℕ) (b : Bool)
    → get_next_word p ≡ some (some v, q)
    → opens q v.0 ≡ some b
    → find_name_spaces (suc fuel) i p ≡ (elim b as (λ _. Option TextParser) [
      | true ↦
          (open_name_space (suc (length p.file_buffer)) i q v >>= λ r.
          find_name_spaces fuel (i + 1) r)
      | false ↦ find_name_spaces fuel i q
    ])
unfolding find_name_spaces
find-next fuel i p q v b is open_is = rw (is, open_is) refl

-- The name spaces that have been noted behind those of `done`.
pub record Noted (o : Option TextParser) (p : TextParser) (done fresh : List NameSpace)
    (ss : List (List ℕ × List (List ℕ))) : Type 0 where
  pub q : TextParser
  pub is : o ≡ some q
  pub buffer : q.file_buffer ≡ p.file_buffer
  pub es : List NameSpace
  pub all : AllFiled p.file_buffer es ss
  pub names : q.name_spaces ≡ done ++ (es ++ drop (length ss) fresh)

-- One more name space in front.
pub first-Noted :
    (o o2 : Option TextParser) (p r : TextParser) (done fresh : List NameSpace) (e0 e : NameSpace)
    (s : List ℕ × List (List ℕ)) (ss : List (List ℕ × List (List ℕ)))
    → o ≡ o2
    → r.file_buffer ≡ p.file_buffer
    → Filed p.file_buffer e s
    → Noted o2 r (done ++ (e ∷ [])) fresh ss
    → Noted o p done (e0 ∷ fresh) (s ∷ ss)
first-Noted o o2 p r done fresh e0 e s ss same buffer f n = record {
  q = n.q;
  is = same ∙ n.is;
  buffer = n.buffer ∙ buffer;
  es = e ∷ n.es;
  all = filed f (subst (λ b. AllFiled b n.es ss) buffer n.all);
  names = n.names ∙ append_assoc done (e ∷ []) (n.es ++ drop (length ss) fresh);
}

pub colon_first :
    (p : TextParser) (next : List ℕ) (c : ℕ) (w : List ℕ) (n : Scanned p (c ∷ w) next [])
    → opens n.q n.v.0 ≡ some (c == 58)
colon_first p next c w n =
    rw (get_elem?-drop n.v.0 n.q.file_buffer c (w ++ (next ++ [])) n.begins) refl

module _ (p : TextParser) (name next : List ℕ) (c : ℕ) (w : List ℕ) (is_name : c ∷ w ≡ 58 ∷ name)
    (is_word : IsWord (c ∷ w) (next ++ [])) (short : length w < 255)
    (n : Scanned p (c ∷ w) next []) where
  pub name_copied : copy_name n.q n.v ≡ some name
  unfolding copy_word
  name_copied =
      let same : w ≡ name = cc in
      let long : n.v.1 ≡ suc (length w) = n.long in
      let some_bytes : n.v.1 == 0 ≡ false = ground (arith, long) in
      let fits : ltb (n.v.1 - 1) 256 ≡ true = ground (arith, long) in
      let begins : drop (n.v.0 + 1) n.q.file_buffer ≡ w ++ (next ++ []) =
        drop-drop n.v.0 n.q.file_buffer (c ∷ []) (w ++ (next ++ [])) n.begins in
      let less : n.v.1 - 1 ≡ length w = omega (arith, long) in
      let copied : take (n.v.1 - 1) (drop (n.v.0 + 1) n.q.file_buffer) ≡ w =
        ap₂ take less begins ∙ take-append w (next ++ []) in
      rw (some_bytes, fits, copied) (ap some (c_text-IsWord w (next ++ []) is_word.3 ∙ same))

  pub opens_colon : opens n.q n.v.0 ≡ some true
  opens_colon =
      let is_colon : c ≡ 58 = cc in colon_first p next c w n ∙ ap (λ x. some (x == 58)) is_colon
