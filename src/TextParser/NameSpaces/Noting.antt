-- ===== src/TextParser/NameSpaces/Noting.antt =====
-- The loop of `checkNameSpace` notes the name spaces of a file.
use cpp_lockfree_core.Base.{
  ℕ, zero, suc, ◌+◌, ◌≡◌, ◌≤◌, ◌<◌, refl, sym, ap, ◌∙◌, subst, true, false, List, [], ◌∷◌, ◌++◌,
  append-nil, append_assoc, Option, some, length, length-append, length-drop, drop, arith, ◌>>=◌,
}
use cpp_lockfree_core.TextParser.{NameSpace, TextParser}
use cpp_lockfree_core.TextParser.Values.Tokens.{
  Space, no_space, At, Scanned, get_next_word-Scanned, get_next_word-end, Leads, there, word,
  length-Leads,
}
use cpp_lockfree_core.TextParser.NameSpaces.{
  copy_name, opens, open_name_space, close_name_space, find_name_spaces,
}
use cpp_lockfree_core.TextParser.NameSpaces.Sections.{
  brace, Sections, no_section, outside, section, unended,
}
use cpp_lockfree_core.TextParser.NameSpaces.Closed.{
  Closed, close_name_space-Closed, close_name_space-AtEnd,
}
use cpp_lockfree_core.TextParser.NameSpaces.Filed.{
  Filed, AllFiled, none_filed, AllWhole, put-middle, find-next, Noted, first-Noted, name_copied,
  colon_first, opens_colon,
}

-- There are not more bytes to come than the file has.
few_left : (p : TextParser) (bs : List ℕ) → At p bs [] → length bs ≤ length p.file_buffer
few_left p bs at =
    omega (arith, ap length at.here, length-append bs [], length-drop p.cur_pos p.file_buffer)

module _ (i : ℕ) (p : TextParser) (next : List ℕ) (c : ℕ) (w : List ℕ)
    (n : Scanned p (c ∷ w) next []) (done fresh : List NameSpace) (e0 : NameSpace)
    (names : p.name_spaces ≡ done ++ (e0 ∷ fresh)) (count : length done ≡ i) (name : List ℕ)
    (copied : copy_name n.q n.v ≡ some name) where
  abbrev entry : NameSpace
  entry = record e0 { pos = n.q.cur_pos; text = name }

  abbrev entered : TextParser
  entered = record n.q { name_spaces = done ++ (entry ∷ fresh) }

  opened : (fuel : ℕ) → open_name_space fuel i n.q n.v ≡ close_name_space fuel i entered
  unfolding open_name_space
  opened fuel =
      let noted =
        put-middle i (λ e. record e { pos = n.q.cur_pos; text = name }) n.q done e0 fresh
          (n.names ∙ names) count in
      rw (copied, noted) refl

  entered-At : At entered next []
  entered-At = record { here = n.at.here; room = n.at.room }

  -- The name space is closed.
  entry-Filed :
      (o : Option TextParser) (rest : List ℕ) (here more : List (List ℕ))
      → (r : Closed o i entered rest next here more)
      → (o
          ≡ some (record r.q {
            name_spaces = done ++ (record entry { max_pos = r.q.cur_pos } ∷ fresh);
          }))
        × Filed p.file_buffer (record entry { max_pos = r.q.cur_pos }) (name, here)
  entry-Filed o rest here more r =
      let front = r.split.front in
      let noted =
        put-middle i (λ e. record e { max_pos = r.q.cur_pos }) r.q done entry fresh r.moved.names
          count in
      let room : r.q.cur_pos ≡ n.q.cur_pos + length front = omega (
        arith,
        r.at.room,
        r.moved.ends,
        n.at.room,
        ap length r.split.is,
        length-append front r.behind,
      ) in
      (
        r.is ∙ noted,
        record {
          text = refl;
          bs = front;
          tail = r.behind;
          rest = [];
          here = ap (drop n.q.cur_pos) (sym n.buffer) ∙ n.at.here ∙ append-nil next ∙ r.split.is;
          room = room;
          leads = r.split.leads;
          space = no_space;
        },
      )

  -- The file ends in the name space.
  unended-Filed :
      (rest : List ℕ) (ws : List (List ℕ))
      → Leads [] rest next ws
      → Space rest
      → e0.max_pos ≡ p.max_name_space
      → Filed p.file_buffer entry (name, ws)
  unended-Filed rest ws leads space whole = record {
    text = refl;
    bs = next;
    tail = [];
    rest = rest;
    here = ap (drop n.q.cur_pos) (sym n.buffer) ∙ n.at.here;
    room = whole ∙ sym n.ends ∙ n.at.room;
    leads = leads;
    space = space;
  }

-- The loop notes the name spaces in their order.
pub find_name_spaces-Noted :
    (fuel i : ℕ) (p : TextParser) (rest bs : List ℕ) {ws : List (List ℕ)}
    {ss : List (List ℕ × List (List ℕ))} (done fresh : List NameSpace)
    → Leads [] rest bs ws
    → Space rest
    → Sections ws ss
    → At p bs []
    → p.name_spaces ≡ done ++ fresh
    → length done ≡ i
    → length ss ≤ length fresh
    → AllWhole p.max_name_space fresh
    → length ws < fuel
    → Noted (find_name_spaces fuel i p) p done fresh ss
unfolding find_name_spaces
find_name_spaces-Noted zero i p rest bs done fresh l space s at names count room whole few =
    absurd (omega arith)
find_name_spaces-Noted (suc fuel) i p rest bs done fresh (there e) space no_section at names count
      room whole few =
    let g = subst Space (sym e) space in
    record {
      q = record p { cur_pos = p.cur_pos + length bs };
      is = rw (get_next_word-end p bs [] g at) refl;
      buffer = refl;
      es = [];
      all = none_filed;
      names = names;
    }
find_name_spaces-Noted (suc fuel) i p rest bs {ss = ss} done fresh
      (word {w = w} {next = next} {ws = ws} {c = c} g sp plain is short e later) space
      (outside no_colon s) at names count room whole few =
    let n = get_next_word-Scanned p g c w next [] sp plain is short (subst (λ x. At p x []) e at) in
    let first : opens n.q n.v.0 ≡ some false = colon_first p next c w n ∙ ap some no_colon in
    let r =
      find_name_spaces-Noted fuel i n.q rest next done fresh later space s n.at (n.names ∙ names)
        count room (subst (λ x. AllWhole x fresh) (sym n.ends) whole) (omega arith) in
    record {
      q = r.q;
      is = find-next fuel i p n.q n.v false n.is first ∙ r.is;
      buffer = r.buffer ∙ n.buffer;
      es = r.es;
      all = subst (λ b. AllFiled b r.es ss) n.buffer r.all;
      names = r.names;
    }
find_name_spaces-Noted (suc fuel) i p rest bs done [] (word g sp plain is short e later) space
      (section name body more un s e2 e3) at names count room whole few =
    absurd (omega arith)
find_name_spaces-Noted (suc fuel) i p rest bs done [] (word g sp plain is short e later) space
      (unended name un e2) at names count room whole few =
    absurd (omega arith)
find_name_spaces-Noted (suc fuel) i p rest bs done (e0 ∷ fresh)
      (word {w = w} {next = next} {ws = ws} {c = c} g sp plain is short e later) space
      (section name body more un s e2 e3) at names count room whole few =
    let n = get_next_word-Scanned p g c w next [] sp plain is short (subst (λ x. At p x []) e at) in
    let all = suc (length p.file_buffer) in
    let copied = name_copied p name next c w e3 is short n in
    let first = opens_colon p name next c w e3 is short n in
    let start = entered i p next c w n done fresh e0 names count name copied in
    let r =
      close_name_space-Closed all i start rest next body more later e2 un
        (entered-At i p next c w n done fresh e0 names count name copied)
        (omega (
          arith,
          few_left n.q next n.at,
          length-Leads [] rest next ws later,
          ap length n.buffer,
        )) in
    let (ends, noted) =
      entry-Filed i p next c w n done fresh e0 names count name copied
        (close_name_space all i start) rest (body ++ (brace ∷ [])) more r in
    let e1 : NameSpace = record e0 { pos = n.q.cur_pos; text = name; max_pos = r.q.cur_pos } in
    let r2 : TextParser = record r.q { name_spaces = done ++ (e1 ∷ fresh) } in
    let later_on =
      find_name_spaces-Noted fuel (i + 1) r2 rest r.behind (done ++ (e1 ∷ [])) fresh r.split.later
        space s (record { here = r.at.here; room = r.at.room })
        (sym (append_assoc done (e1 ∷ []) fresh))
        (omega (arith, length-append done (e1 ∷ []), count)) (omega arith)
        (subst (λ x. AllWhole x fresh) (sym (r.moved.ends ∙ n.ends)) whole.1)
        (omega (arith, ap length e2, length-append body (brace ∷ more))) in
    first-Noted (find_name_spaces (suc fuel) i p) (find_name_spaces fuel (i + 1) r2) p r2 done fresh
      e0 e1 (name, body ++ (brace ∷ [])) _
      (find-next fuel i p n.q n.v true n.is first
        ∙ ap (λ o. o >>= λ x. find_name_spaces fuel (i + 1) x)
            (opened i p next c w n done fresh e0 names count name copied all ∙ ends))
      (r.moved.buffer ∙ n.buffer) noted later_on
find_name_spaces-Noted (suc fuel) i p rest bs done (e0 ∷ fresh)
      (word {w = w} {next = next} {ws = ws} {c = c} g sp plain is short e later) space
      (unended name un e3) at names count room whole few =
    let n = get_next_word-Scanned p g c w next [] sp plain is short (subst (λ x. At p x []) e at) in
    let all = suc (length p.file_buffer) in
    let copied = name_copied p name next c w e3 is short n in
    let first = opens_colon p name next c w e3 is short n in
    let start = entered i p next c w n done fresh e0 names count name copied in
    let e1 = entry i p next c w n done fresh e0 names count name copied in
    let r =
      close_name_space-AtEnd all i start rest next later space un
        (entered-At i p next c w n done fresh e0 names count name copied)
        (omega (
          arith,
          few_left n.q next n.at,
          length-Leads [] rest next ws later,
          ap length n.buffer,
        )) in
    let noted =
      unended-Filed i p next c w n done fresh e0 names count name copied rest ws later space
        whole.0 in
    let later_on =
      find_name_spaces-Noted fuel (i + 1) r.q [] [] (done ++ (e1 ∷ [])) fresh (there refl) no_space
        no_section r.at (r.moved.names ∙ sym (append_assoc done (e1 ∷ []) fresh))
        (omega (arith, length-append done (e1 ∷ []), count)) (omega arith)
        (subst (λ x. AllWhole x fresh) (sym (r.moved.ends ∙ n.ends)) whole.1) (omega arith) in
    first-Noted (find_name_spaces (suc fuel) i p) (find_name_spaces fuel (i + 1) r.q) p r.q done
      fresh e0 e1 (name, ws) []
      (find-next fuel i p n.q n.v true n.is first
        ∙ ap (λ o. o >>= λ x. find_name_spaces fuel (i + 1) x)
            (opened i p next c w n done fresh e0 names count name copied all ∙ r.is))
      (r.moved.buffer ∙ n.buffer) noted later_on
