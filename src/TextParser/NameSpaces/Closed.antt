-- ===== src/TextParser/NameSpaces/Closed.antt =====
-- The end of a name space is found.
use cpp_lockfree_core.Base.{
  ℕ, zero, suc, ◌+◌, ◌≡◌, ◌<◌, refl, sym, ◌∙◌, subst, true, false, List, [], ◌∷◌, ◌++◌, Option,
  some, length, arith,
}
use cpp_lockfree_core.TextParser.{TextParser, get_next_word, copy_word, same_text}
use cpp_lockfree_core.TextParser.Words.{drop-drop}
use cpp_lockfree_core.TextParser.Values.Tokens.{
  Space, At, get_next_word-Scanned, get_next_word-end, Leads, there, word,
}
use cpp_lockfree_core.TextParser.NameSpaces.{put, close_name_space}
use cpp_lockfree_core.TextParser.NameSpaces.Sections.{brace, Unclosed, Split, one_more}

-- The parser has gone on in the same file.
pub record Moved (p q : TextParser) : Type 0 where
  pub buffer : q.file_buffer ≡ p.file_buffer
  pub names : q.name_spaces ≡ p.name_spaces
  pub ends : q.max_name_space ≡ p.max_name_space

pub Moved-trans : {p q r : TextParser} → Moved p q → Moved q r → Moved p r
Moved-trans a b = record {
  buffer = b.buffer ∙ a.buffer;
  names = b.names ∙ a.names;
  ends = b.ends ∙ a.ends;
}

close-next :
    (fuel i : ℕ) (p q : TextParser) (v : ℕ × ℕ) (t : List ℕ)
    → get_next_word p ≡ some (some v, q)
    → copy_word q v ≡ some t
    → close_name_space (suc fuel) i p ≡ (elim (same_text t brace) as (λ _. Option TextParser) [
      | true ↦ put i (λ e. record e { max_pos = q.cur_pos }) q
      | false ↦ close_name_space fuel i q
    ])
unfolding close_name_space
close-next fuel i p q v t is text = rw (is, text) refl

-- Behind the closing brace.
pub record Closed (o : Option TextParser) (i : ℕ) (p : TextParser) (rest bs : List ℕ)
    (here more : List (List ℕ)) : Type 0 where
  pub q : TextParser
  pub is : o ≡ put i (λ e. record e { max_pos = q.cur_pos }) q
  pub behind : List ℕ
  pub split : Split rest bs behind here more
  pub at : At q behind []
  pub moved : Moved p q

pub close_name_space-Closed :
    (fuel i : ℕ) (p : TextParser) (rest bs : List ℕ) (body more : List (List ℕ))
    {ws : List (List ℕ)}
    → Leads [] rest bs ws
    → ws ≡ body ++ (brace ∷ more)
    → Unclosed body
    → At p bs []
    → length ws < fuel
    → Closed (close_name_space fuel i p) i p rest bs (body ++ (brace ∷ [])) more
unfolding same_text
close_name_space-Closed zero i p rest bs body more l e un at few = absurd (omega arith)
close_name_space-Closed (suc fuel) i p rest bs [] more (there _) e un at few = absurd (cc)
close_name_space-Closed (suc fuel) i p rest bs (b ∷ body) more (there _) e un at few = absurd (cc)
close_name_space-Closed (suc fuel) i p rest bs [] more
      (word {w = w} {next = next} {ws = ws} {c = c} g space plain is short e2 later) e un at few =
    let n =
      get_next_word-Scanned p g c w next [] space plain is short (subst (λ x. At p x []) e2 at) in
    let sign : c ∷ w ≡ brace = cc in
    let rest_is : ws ≡ more = cc in
    let split =
      one_more g c w next space plain is short e2
        (record { front = []; is = refl; leads = there refl; later = later }) in
    let same : same_text (c ∷ w) brace ≡ true =
      subst (λ x. same_text x brace ≡ true) (sym sign) refl in
    record {
      q = n.q;
      is = close-next fuel i p n.q n.v (c ∷ w) n.is n.text ∙ rw same refl;
      behind = next;
      split = record {
        front = split.front;
        is = split.is;
        leads = subst (λ x. Leads next [] split.front (x ∷ [])) sign split.leads;
        later = subst (Leads [] rest next) rest_is split.later;
      };
      at = n.at;
      moved = record { buffer = n.buffer; names = n.names; ends = n.ends };
    }
close_name_space-Closed (suc fuel) i p rest bs (b ∷ body) more
      (word {w = w} {next = next} {ws = ws} {c = c} g space plain is short e2 later) e (un, uns) at
      few =
    let n =
      get_next_word-Scanned p g c w next [] space plain is short (subst (λ x. At p x []) e2 at) in
    let first : c ∷ w ≡ b = cc in
    let rest_is : ws ≡ body ++ (brace ∷ more) = cc in
    let other : same_text (c ∷ w) brace ≡ false =
      subst (λ x. same_text x brace ≡ false) (sym first) un in
    let r =
      close_name_space-Closed fuel i n.q rest next body more later rest_is uns n.at (omega arith) in
    let split = one_more g c w next space plain is short e2 r.split in
    record {
      q = r.q;
      is = close-next fuel i p n.q n.v (c ∷ w) n.is n.text ∙ rw other r.is;
      behind = r.behind;
      split = record {
        front = split.front;
        is = split.is;
        leads =
            subst (λ x. Leads r.behind [] split.front (x ∷ (body ++ (brace ∷ [])))) first
              split.leads;
        later = split.later;
      };
      at = r.at;
      moved = Moved-trans (record { buffer = n.buffer; names = n.names; ends = n.ends }) r.moved;
    }

-- At the end of the file.
pub record AtEnd (o : Option TextParser) (p : TextParser) : Type 0 where
  pub q : TextParser
  pub is : o ≡ some q
  pub at : At q [] []
  pub moved : Moved p q

pub Space-AtEnd :
    (p : TextParser) (g : List ℕ)
    → Space g
    → At p g []
    → At (record p { cur_pos = p.cur_pos + length g }) [] []
Space-AtEnd p g space at = record {
  here = drop-drop p.cur_pos p.file_buffer g [] at.here;
  room = omega (arith, at.room);
}

pub close_name_space-AtEnd :
    (fuel i : ℕ) (p : TextParser) (rest bs : List ℕ) {ws : List (List ℕ)}
    → Leads [] rest bs ws
    → Space rest
    → Unclosed ws
    → At p bs []
    → length ws < fuel
    → AtEnd (close_name_space fuel i p) p
unfolding close_name_space
close_name_space-AtEnd zero i p rest bs l space un at few = absurd (omega arith)
close_name_space-AtEnd (suc fuel) i p rest bs (there e) space un at few =
    let s = subst Space (sym e) space in
    record {
      q = record p { cur_pos = p.cur_pos + length bs };
      is = rw (get_next_word-end p bs [] s at) refl;
      at = Space-AtEnd p bs s at;
      moved = record { buffer = refl; names = refl; ends = refl };
    }
close_name_space-AtEnd (suc fuel) i p rest bs
      (word {w = w} {next = next} {ws = ws} {c = c} g s plain is short e later) space (un, uns) at
      few =
    let n = get_next_word-Scanned p g c w next [] s plain is short (subst (λ x. At p x []) e at) in
    let r = close_name_space-AtEnd fuel i n.q rest next later space uns n.at (omega arith) in
    record {
      q = r.q;
      is = close-next fuel i p n.q n.v (c ∷ w) n.is n.text ∙ rw un r.is;
      at = r.at;
      moved = Moved-trans (record { buffer = n.buffer; names = n.names; ends = n.ends }) r.moved;
    }
