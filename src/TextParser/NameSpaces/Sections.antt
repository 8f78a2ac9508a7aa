-- ===== src/TextParser/NameSpaces/Sections.antt =====
-- The name spaces in a list of words, and the words of a file up to a place.
use cpp_lockfree_core.Base.{
  ℕ, zero, suc, ◌≡◌, ◌<◌, refl, sym, ap, ◌∙◌, subst, Bool, false, List, [], ◌∷◌, ◌++◌, append-nil,
  append_assoc, some, ◌==◌, length, get_elem?, set, drop,
}
use cpp_lockfree_core.TextParser.{NameSpace, same_text, between_words}
use cpp_lockfree_core.TextParser.Values.Tokens.{Space, IsWord, Leads, word}

abbrev pub brace : List ℕ
brace = 125 ∷ []

abbrev pub colon : List ℕ → Bool
colon [] = false
colon (c ∷ w) = c == 58

-- No word is the closing brace.
abbrev pub Unclosed : List (List ℕ) → Type 0
Unclosed [] = Unit {0}
Unclosed (w ∷ ws) = (same_text w brace ≡ false) × Unclosed ws

-- A name space is a word that starts with a colon, and the words up to a closing brace, or to the end
-- of the file.
pub data Sections : List (List ℕ) → List (List ℕ × List (List ℕ)) → Type 0 where
  no_section : Sections [] []
  outside :
      {w : List ℕ} {ws : List (List ℕ)} {ss : List (List ℕ × List (List ℕ))}
      → colon w ≡ false
      → Sections ws ss
      → Sections (w ∷ ws) ss
  section :
      {w : List ℕ} {ws : List (List ℕ)} {ss : List (List ℕ × List (List ℕ))} (name : List ℕ)
      (body more : List (List ℕ))
      → Unclosed body
      → Sections more ss
      → ws ≡ body ++ (brace ∷ more)
      → w ≡ 58 ∷ name
      → Sections (w ∷ ws) ((name, body ++ (brace ∷ [])) ∷ ss)
  unended :
      {w : List ℕ} {ws : List (List ℕ)} (name : List ℕ)
      → Unclosed ws
      → w ≡ 58 ∷ name
      → Sections (w ∷ ws) ((name, ws) ∷ [])

-- A place in the file between two words.
pub record Split (rest bs behind : List ℕ) (here more : List (List ℕ)) : Type 0 where
  pub front : List ℕ
  pub is : bs ≡ front ++ behind
  pub leads : Leads behind [] front here
  pub later : Leads [] rest behind more

module _ (g : List ℕ) (c : ℕ) (w next : List ℕ) (space : Space g) (plain : between_words c ≡ false)
    (is : IsWord (c ∷ w) (next ++ [])) (short : length w < 255) where
  pub one_more :
      {rest bs behind : List ℕ} {here more : List (List ℕ)}
      → bs ≡ g ++ ((c ∷ w) ++ next)
      → Split rest next behind here more
      → Split rest bs behind ((c ∷ w) ∷ here) more
  one_more {rest} {bs} {behind} {here} {more} e s = record {
    front = g ++ ((c ∷ w) ++ s.front);
    is =
        e
        ∙ ap (λ x. g ++ ((c ∷ w) ++ x)) s.is
        ∙ sym (
            append_assoc g ((c ∷ w) ++ s.front) behind
            ∙ ap (λ x. g ++ x) (append_assoc (c ∷ w) s.front behind));
    leads =
        word g space plain (subst (IsWord (c ∷ w)) (append-nil next ∙ s.is) is) short refl s.leads;
    later = s.later;
  }

pub get_elem?-middle :
    (xs : List NameSpace) (e : NameSpace) (ys : List NameSpace)
    → get_elem? (xs ++ (e ∷ ys)) (length xs) ≡ some e
get_elem?-middle [] e ys = refl
get_elem?-middle (x ∷ xs) e ys = get_elem?-middle xs e ys

pub set-middle :
    (xs : List NameSpace) (e v : NameSpace) (ys : List NameSpace)
    → set (xs ++ (e ∷ ys)) (length xs) v ≡ xs ++ (v ∷ ys)
set-middle [] e v ys = refl
set-middle (x ∷ xs) e v ys = ap (λ l. x ∷ l) (set-middle xs e v ys)

pub get_elem?-drop :
    (s : ℕ) (l : List ℕ) (c : ℕ) (x : List ℕ) → drop s l ≡ c ∷ x → get_elem? l s ≡ some c
get_elem?-drop zero [] c x e = absurd (cc)
get_elem?-drop zero (d ∷ l) c x e = cc
get_elem?-drop (suc s) [] c x e = absurd (cc)
get_elem?-drop (suc s) (d ∷ l) c x e = get_elem?-drop s l c x e
