-- ===== src/Tests/Texts.antt =====
-- The scanner on small files.
use cpp_lockfree_core.Base.{
  ℕ, ◌≡◌, refl, inl, inr, Bool, true, List, [], ◌∷◌, replicate, Option, some, none, arith, length,
}
use cpp_lockfree_core.Grid.{ℤ, pos, negsuc}
use cpp_lockfree_core.TextParser.{
  TextParser, get_next_word, skip_none_command, skip, word_end, get_string_word, string_end, c_text,
  copy_word, same_text,
}
use cpp_lockfree_core.TextParser.Values.{
  Value, enter, after_name, seek, get_value, read_word, read_string, digits, atoi, get_value_int,
  get_value_double, get_value_string, get_value_w_string,
}
use cpp_lockfree_core.TextParser.Values.Tokens.{Leads, there, word, no_space, blank}
use cpp_lockfree_core.TextParser.Values.Strings.{in_quotes, returned, string_lookups-Reads}
use cpp_lockfree_core.TextParser.NameSpaces.Sections.{Sections, no_section, section}
use cpp_lockfree_core.TextParser.NameSpaces.Lookups.{wanted, loaded_number_lookups}
use cpp_lockfree_core.TextParser.NameSpaces.{
  close_name_space, open_name_space, find_name_spaces, check_name_space, load_text,
}
use cpp_lockfree_core.TextParser.Words.{get_next_word_overreads}

-- A space, "ab" and a line feed.
abbrev line : TextParser
line = record {
  file_buffer = 32 ∷ 97 ∷ 98 ∷ 10 ∷ [];
  cur_pos = 0;
  max_name_space = 4;
  name_spaces = [];
}

-- The same without the line feed.
abbrev unended : TextParser
unended = record { file_buffer = 97 ∷ 98 ∷ []; cur_pos = 0; max_name_space = 2; name_spaces = [] }

word_found : get_next_word line ≡ some (some (1, 2), record line { cur_pos = 3 })
unfolding get_next_word skip_none_command skip word_end
word_found = refl

get_next_word_overreads_example : get_next_word unended ≡ none
get_next_word_overreads_example =
    get_next_word_overreads unended 97 (98 ∷ []) refl (refl, refl, (refl, refl, tt)) (omega arith)

abbrev of_bytes : List ℕ → TextParser
of_bytes bytes = record {
  file_buffer = bytes;
  cur_pos = 0;
  max_name_space = 0;
  name_spaces = replicate 20 (record { pos = 0; max_pos = 0; text = [] });
}

-- "hp = 12" and a line feed.
abbrev number : TextParser
number = of_bytes (104 ∷ 112 ∷ 32 ∷ 61 ∷ 32 ∷ 49 ∷ 50 ∷ 10 ∷ [])

-- What is returned and what is written.
abbrev outcome : {A : Type 0} → Option (Value A × TextParser) → Option (Value A)
outcome none = none
outcome (some (v, q)) = some v

number_found : outcome (get_value_int number (104 ∷ 112 ∷ []) []) ≡ some (true, some (pos 12))
unfolding get_value_int get_value enter seek after_name read_word get_next_word skip_none_command
    skip word_end copy_word c_text same_text atoi digits
number_found = refl

-- Another name: the result is true, and nothing is written.
number_missing : outcome (get_value_int number (109 ∷ 112 ∷ []) []) ≡ some (true, none)
unfolding get_value_int get_value enter seek after_name read_word get_next_word skip_none_command
    skip word_end copy_word c_text same_text atoi digits
number_missing = refl

minus_seven : atoi (32 ∷ 45 ∷ 55 ∷ 120 ∷ []) ≡ negsuc 6
unfolding atoi digits
minus_seven = refl

-- s = "a b" and a line feed.
abbrev phrase : TextParser
phrase = of_bytes (115 ∷ 32 ∷ 61 ∷ 32 ∷ 34 ∷ 97 ∷ 32 ∷ 98 ∷ 34 ∷ 10 ∷ [])

phrase_found :
    outcome (get_value_string phrase (115 ∷ []) []) ≡ some (true, some (97 ∷ 32 ∷ 98 ∷ []))
unfolding get_value_string get_value enter seek after_name read_string get_string_word string_end
    get_next_word skip_none_command skip word_end copy_word c_text same_text
phrase_found = refl

-- ":a hp = 1 } :b hp = 2 }" and a line feed.
abbrev spaced : List ℕ
spaced =
    58 ∷ 97 ∷ 32 ∷ 104 ∷ 112 ∷ 32 ∷ 61 ∷ 32 ∷ 49 ∷ 32 ∷ 125 ∷ 32 ∷ 58 ∷ 98 ∷ 32 ∷ 104 ∷ 112 ∷ 32
    ∷ 61 ∷ 32 ∷ 50 ∷ 32 ∷ 125 ∷ 10 ∷ []

abbrev in_name_space : List ℕ → Option (Bool × TextParser) → Option (Value ℤ)
in_name_space ns none = none
in_name_space ns (some (b, p)) = outcome (get_value_int p (104 ∷ 112 ∷ []) ns)

second_name_space :
    in_name_space (98 ∷ []) (load_text (of_bytes []) (some spaced)) ≡ some (true, some (pos 2))
unfolding load_text check_name_space find_name_spaces open_name_space close_name_space get_value_int
    get_value enter seek after_name read_word get_next_word skip_none_command skip word_end
    copy_word c_text same_text atoi digits
second_name_space = refl

abbrev two_spaces : List (List ℕ × List (List ℕ))
two_spaces =
    (97 ∷ [], (104 ∷ 112 ∷ []) ∷ (61 ∷ []) ∷ (49 ∷ []) ∷ (125 ∷ []) ∷ [])
    ∷ (98 ∷ [], (104 ∷ 112 ∷ []) ∷ (61 ∷ []) ∷ (50 ∷ []) ∷ (125 ∷ []) ∷ [])
    ∷ []

abbrev spaced_words : List (List ℕ)
spaced_words =
    (58 ∷ 97 ∷ [])
    ∷ (104 ∷ 112 ∷ [])
    ∷ (61 ∷ [])
    ∷ (49 ∷ [])
    ∷ (125 ∷ [])
    ∷ (58 ∷ 98 ∷ [])
    ∷ (104 ∷ 112 ∷ [])
    ∷ (61 ∷ [])
    ∷ (50 ∷ [])
    ∷ (125 ∷ [])
    ∷ []

spaced-Leads : Leads [] (10 ∷ []) spaced spaced_words
spaced-Leads =
    word {w = 97 ∷ []} [] no_space refl (refl, refl, refl, (refl, refl, refl, inl refl))
      (omega arith) refl
      (word {w = 112 ∷ []} (32 ∷ []) (blank refl no_space) refl
        (refl, refl, refl, (refl, refl, refl, inl refl)) (omega arith) refl
        (word {w = []} (32 ∷ []) (blank refl no_space) refl (refl, refl, refl, inl refl)
          (omega arith) refl
          (word {w = []} (32 ∷ []) (blank refl no_space) refl (refl, refl, refl, inl refl)
            (omega arith) refl
            (word {w = []} (32 ∷ []) (blank refl no_space) refl (refl, refl, refl, inl refl)
              (omega arith) refl
              (word {w = 98 ∷ []} (32 ∷ []) (blank refl no_space) refl
                (refl, refl, refl, (refl, refl, refl, inl refl)) (omega arith) refl
                (word {w = 112 ∷ []} (32 ∷ []) (blank refl no_space) refl
                  (refl, refl, refl, (refl, refl, refl, inl refl)) (omega arith) refl
                  (word {w = []} (32 ∷ []) (blank refl no_space) refl (refl, refl, refl, inl refl)
                    (omega arith) refl
                    (word {w = []} (32 ∷ []) (blank refl no_space) refl (refl, refl, refl, inl refl)
                      (omega arith) refl
                      (word {w = []} (32 ∷ []) (blank refl no_space) refl
                        (refl, refl, refl, inl refl) (omega arith) refl (there refl))))))))))

spaced-Sections : Sections spaced_words two_spaces
unfolding same_text
spaced-Sections =
    section (97 ∷ []) ((104 ∷ 112 ∷ []) ∷ (61 ∷ []) ∷ (49 ∷ []) ∷ [])
      ((58 ∷ 98 ∷ []) ∷ (104 ∷ 112 ∷ []) ∷ (61 ∷ []) ∷ (50 ∷ []) ∷ (125 ∷ []) ∷ [])
      (refl, (refl, (refl, tt)))
      (section (98 ∷ []) ((104 ∷ 112 ∷ []) ∷ (61 ∷ []) ∷ (50 ∷ []) ∷ []) []
        (refl, (refl, (refl, tt))) no_section refl refl)
      refl refl

-- The name space "b"; in place of `atof`, the number of bytes.
loaded_number_lookups_example :
    (p : TextParser) × (load_text (of_bytes []) (some spaced) ≡ some (true, p))
    × ((q : TextParser) × (get_value_int p (104 ∷ 112 ∷ []) (98 ∷ [])
          ≡ some (wanted atoi (104 ∷ 112 ∷ []) (98 ∷ []) spaced_words two_spaces, q)))
    × ((q : TextParser) × (get_value_double length p (104 ∷ 112 ∷ []) (98 ∷ [])
          ≡ some (wanted length (104 ∷ 112 ∷ []) (98 ∷ []) spaced_words two_spaces, q)))
unfolding same_text
loaded_number_lookups_example =
    loaded_number_lookups length (of_bytes []) (104 ∷ 112 ∷ []) (98 ∷ []) spaced-Leads
      (blank refl no_space) spaced-Sections (omega arith)
      (inr (
        (
          refl,
          (
            refl,
            (
              refl,
              (
                refl,
                (
                  refl,
                  (
                    refl,
                    (
                      refl,
                      (
                        refl,
                        (
                          refl,
                          (
                            refl,
                            (refl, (refl, (refl, (refl, (refl, (refl, (refl, (refl, tt)))))))),
                          ),
                        ),
                      ),
                    ),
                  ),
                ),
              ),
            ),
          ),
        )))

string_lookups-Reads_example :
    ((q : TextParser) × (get_value_string phrase (115 ∷ []) []
        ≡ some (returned (λ t. t) (some (97 ∷ 32 ∷ 98 ∷ [])), q)))
    × ((q : TextParser) × (get_value_w_string length phrase (115 ∷ []) []
          ≡ some (returned length (some (97 ∷ 32 ∷ 98 ∷ [])), q)))
unfolding same_text
string_lookups-Reads_example =
    string_lookups-Reads length phrase (115 ∷ []) {rest = 32 ∷ 34 ∷ 97 ∷ 32 ∷ 98 ∷ 34 ∷ 10 ∷ []}
      (word {w = []} [] no_space refl (refl, refl, refl, inl refl) (omega arith) refl
        (word {w = []} (32 ∷ []) (blank refl no_space) refl (refl, refl, refl, inl refl)
          (omega arith) refl (there refl)))
      (inl (refl, refl))
      (in_quotes (32 ∷ []) (97 ∷ 32 ∷ 98 ∷ []) (10 ∷ []) (blank refl no_space)
        (refl, refl, (refl, refl, (refl, refl, tt))) (omega arith) refl)
