-- ===== src/TextParser/Values/Reached.antt =====
-- The loop of the lookups reaches the value behind the name.
use cpp_lockfree_core.Base.{
  ℕ, zero, suc, ◌≡◌, ◌<◌, ◌⊎◌, inl, inr, refl, sym, ap, ◌∙◌, subst, true, false, List, [], ◌∷◌,
  Option, some, length, arith,
}
use cpp_lockfree_core.TextParser.{TextParser, copy_word, same_text}
use cpp_lockfree_core.TextParser.Values.{Value, Reader, Name, after_name, seek}
use cpp_lockfree_core.TextParser.Values.Tokens.{At, get_next_word-Scanned, Leads, there, word}
use cpp_lockfree_core.TextParser.Values.Found.{equals_sign, seek-hit, seek-miss}

-- The words lead up to an equals sign behind the name, which is not among those before.
abbrev pub Asks : Name → List (List ℕ) → Type 0
Asks name [] = ⊥
Asks name (w ∷ ws) =
    ((same_text name w ≡ true) × (ws ≡ equals_sign ∷ []))
    ⊎ ((same_text name w ≡ false) × Asks name ws)

-- The value is read from `q` on.
pub record Reached {A : Type 0} (read : Reader A) (o : Option (Value A × TextParser))
    (rest tail : List ℕ) : Type 0 where
  pub q : TextParser
  pub v : ℕ × ℕ
  pub is : o ≡ read q v
  pub text : copy_word q v ≡ some equals_sign
  pub at : At q rest tail

module _ {A : Type 0} (read : Reader A) where
  after_name-Reached :
      (p : TextParser) {tail rest bs : List ℕ} {ws : List (List ℕ)}
      → Leads tail rest bs ws
      → ws ≡ equals_sign ∷ []
      → At p bs tail
      → Reached read (after_name read p) rest tail
  unfolding after_name same_text
  after_name-Reached p (there e) ends at = absurd (cc)
  after_name-Reached p {tail} {rest}
        (word {w = w} {next = next} {c = c} g s plain is short e (there e2)) ends at =
      let n =
        get_next_word-Scanned p g c w next tail s plain is short (subst (λ x. At p x tail) e at) in
      let sign : c ∷ w ≡ equals_sign = cc in
      let text = n.text ∙ ap some sign in
      rw (n.is, text)
        (record {
          q = n.q;
          v = n.v;
          is = refl;
          text = text;
          at = subst (λ x. At n.q x tail) e2 n.at;
        })
  after_name-Reached p (word g s plain is short e (word g2 s2 plain2 is2 short2 e2 more)) ends at =
      absurd (cc)

  pub seek-Reached :
      (fuel : ℕ) (p : TextParser) (name : Name) {tail rest bs : List ℕ} {ws : List (List ℕ)}
      → Leads tail rest bs ws
      → Asks name ws
      → At p bs tail
      → length ws < fuel
      → Reached read (seek read fuel p name) rest tail
  unfolding seek
  seek-Reached zero p name l asks at few = absurd (omega arith)
  seek-Reached (suc fuel) p name (there e) asks at few = absurd asks
  seek-Reached (suc fuel) p name {tail} {rest}
        (word {w = w} {next = next} {c = c} g s plain is short e more) asks at few =
      let n =
        get_next_word-Scanned p g c w next tail s plain is short (subst (λ x. At p x tail) e at) in
      elim asks [
        | inl (same, ends) ↦
            subst (λ o. Reached read o rest tail)
              (sym (seek-hit read fuel p n.q name (c ∷ w) n.v n.is n.text same))
              (after_name-Reached n.q more ends n.at)
        | inr (other, later) ↦
            subst (λ o. Reached read o rest tail)
              (sym (seek-miss read fuel p n.q name (c ∷ w) n.v n.is n.text other))
              (seek-Reached fuel n.q name more later n.at (omega arith))
      ]
