-- ===== src/Control.antt =====
-- Debian control data: `paragraphs` of mkosi/private/debian_control.py. Texts are ASCII.
pub mod Fields
pub mod Names
use rules_mkosi.Prelude.{
  ℕ, zero, suc, ◌==◌, leb, Bool, true, false, not, ◌&&◌, ◌||◌, List, [], ◌∷◌, ◌++◌, Option, none,
  some, if◌then◌else◌, Outcome, ok, err, ◌>>=◌,
}
use rules_mkosi.Prelude.Text.{Text, is_space, every, strip}
use rules_mkosi.Prelude.Dict.{Dict, lookup, lookup_or, insert}
use rules_mkosi.Debian.Version.{split_first}

pub data ControlError : Type 0 where
  continuation_without_field malformed_field duplicate_field : ControlError

-- The characters after which `str.splitlines` begins a new line.
unfoldable pub is_line_break : ℕ → Bool
is_line_break c = (leb 10 c && leb c 13) || (leb 28 c && leb c 30)

-- `text.splitlines()`, after the characters of the line so far. A carriage return and a line feed
-- together are one break, and a text that ends with a break has no empty last line.
unfoldable pub split_lines : Text → Text → List Text
unfolding is_line_break
split_lines [] [] = []
split_lines (c ∷ line) [] = (c ∷ line) ∷ []
split_lines line (c ∷ []) = if is_line_break c then line ∷ [] else (line ++ c ∷ []) ∷ []
split_lines line (c ∷ d ∷ text) =
    let after_two = split_lines [] text in
    let after_one = split_lines [] (d ∷ text) in
    let longer = split_lines (line ++ c ∷ []) (d ∷ text) in
    if c == 13 && d == 10
    then line ∷ after_two
    else if is_line_break c
    then line ∷ after_one
    else longer

abbrev pub Paragraph : Type 0
Paragraph = Dict Text

-- The variables of the loop.
pub record Parser : Type 0 where
  pub result : List Paragraph
  pub current : Paragraph
  pub field : Option Text

-- An empty `current` is not appended.
unfoldable pub close_paragraph : Parser → Paragraph → Parser
close_paragraph s [] = s
close_paragraph s (entry ∷ rest) = record {
  result = s.result ++ (entry ∷ rest) ∷ [];
  current = [];
  field = none;
}

-- The end of a paragraph: a blank line, or the end of the text.
unfoldable pub end_paragraph : Parser → Parser
unfolding close_paragraph
end_paragraph s = close_paragraph s s.current

unfoldable pub append_value : Parser → Option Text → Text → Outcome ControlError Parser
unfolding lookup_or insert
append_value s none value = err continuation_without_field
append_value s (some field) value =
    ok
      (record s { current = insert field (lookup_or [] field s.current ++ (10 ∷ value)) s.current })

-- A line that starts with whitespace.
unfoldable pub continue_field : Parser → Text → Outcome ControlError Parser
unfolding strip append_value
continue_field s line = append_value s s.field (strip line)

unfoldable pub is_missing : Option Text → Bool
is_missing none = true
is_missing (some value) = false

unfoldable pub add_field : Parser → Option (Text × Text) → Outcome ControlError Parser
unfolding strip lookup insert is_missing
add_field s none = err malformed_field
add_field s (some (field, value)) =
    if is_missing (lookup field s.current)
    then ok (record s { current = insert field (strip value) s.current; field = some field })
    else err duplicate_field

-- A line that starts a field.
unfoldable pub start_field : Parser → Text → Outcome ControlError Parser
unfolding split_first add_field
start_field s line = add_field s (split_first b':' line)

unfoldable pub starts_with_space : Text → Bool
unfolding is_space
starts_with_space [] = false
starts_with_space (c ∷ line) = is_space c

-- One round of the loop.
unfoldable pub read_line : Parser → Text → Outcome ControlError Parser
unfolding end_paragraph continue_field start_field starts_with_space every is_space
read_line s line =
    if every is_space line
    then ok (end_paragraph s)
    else if starts_with_space line
    then continue_field s line
    else start_field s line

unfoldable pub read_lines : Parser → List Text → Outcome ControlError Parser
unfolding read_line
read_lines s [] = ok s
read_lines s (line ∷ lines) = do s' ← read_line s line; read_lines s' lines

-- `paragraphs`
unfoldable pub paragraphs : Text → Outcome ControlError (List Paragraph)
unfolding read_lines end_paragraph split_lines
paragraphs text = do
  s ← read_lines (record { result = []; current = []; field = none }) (split_lines [] text)
  ok (end_paragraph s).result
