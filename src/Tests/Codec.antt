-- ===== src/Tests/Codec.antt =====
-- A text for every tree of Pool, and its parser: a text is a list of commands for a stack.
use btccpu.Prelude.{ℕ, pos, negsuc, List, [], ◌∷◌, ◌++◌, Option, none, some, if◌then◌else◌, ◌==◌}
use btccpu.Tests.Pool.{
  Tree, nothing, truth, whole, large, real, words, row, table, Row, stop, cell, Table, bare, entry,
}

-- What is on the stack.
pub data Item : Type 0 where
  text : List ℕ → Item
  tree : Tree → Item
  cells : Row → Item
  members : Table → Item

abbrev pub spell : List ℕ → List ℕ
spell [] = []
spell (c ∷ s) = 1 ∷ c ∷ spell s

unfoldable mutual
  pub encode_tree : Tree → List ℕ
  encode_tree nothing = 2 ∷ 0 ∷ []
  encode_tree (truth b) = 3 ∷ (if b then 1 else 0) ∷ []
  encode_tree (whole (pos n)) = 4 ∷ n ∷ []
  encode_tree (whole (negsuc n)) = 5 ∷ n ∷ []
  encode_tree (large n) = 6 ∷ n ∷ []
  encode_tree (real n) = 7 ∷ n ∷ []
  encode_tree (words s) = 0 ∷ 0 ∷ (spell s ++ (8 ∷ 0 ∷ []))
  encode_tree (row r) = encode_row r ++ (9 ∷ 0 ∷ [])
  encode_tree (table o) = encode_table o ++ (10 ∷ 0 ∷ [])

  pub encode_row : Row → List ℕ
  encode_row stop = 11 ∷ 0 ∷ []
  encode_row (cell t r) = encode_row r ++ (encode_tree t ++ (12 ∷ 0 ∷ []))

  pub encode_table : Table → List ℕ
  encode_table bare = 13 ∷ 0 ∷ []
  encode_table (entry key t o) =
      encode_table o ++ (0 ∷ 0 ∷ (spell key ++ (encode_tree t ++ (14 ∷ 0 ∷ []))))

-- The commands that take something from the stack.
unfoldable pub append_char : ℕ → List Item → List Item
append_char n (text s ∷ stack) = text (s ++ (n ∷ [])) ∷ stack
append_char n stack = stack

unfoldable pub end_words : List Item → List Item
end_words (text s ∷ stack) = tree (words s) ∷ stack
end_words stack = stack

unfoldable pub end_row : List Item → List Item
end_row (cells r ∷ stack) = tree (row r) ∷ stack
end_row stack = stack

unfoldable pub end_table : List Item → List Item
end_table (members o ∷ stack) = tree (table o) ∷ stack
end_table stack = stack

unfoldable pub add_cell : List Item → List Item
add_cell (tree t ∷ cells r ∷ stack) = cells (cell t r) ∷ stack
add_cell stack = stack

unfoldable pub add_member : List Item → List Item
add_member (tree t ∷ text key ∷ members o ∷ stack) = members (entry key t o) ∷ stack
add_member stack = stack

unfoldable pub command : ℕ → ℕ → List Item → List Item
command c n stack =
    if c == 0
    then text [] ∷ stack
    else if c == 1
    then append_char n stack
    else if c == 2
    then tree nothing ∷ stack
    else if c == 3
    then tree (truth (n == 1)) ∷ stack
    else if c == 4
    then tree (whole (pos n)) ∷ stack
    else if c == 5
    then tree (whole (negsuc n)) ∷ stack
    else if c == 6
    then tree (large n) ∷ stack
    else if c == 7
    then tree (real n) ∷ stack
    else if c == 8
    then end_words stack
    else if c == 9
    then end_row stack
    else if c == 10
    then end_table stack
    else if c == 11
    then cells stop ∷ stack
    else if c == 12
    then add_cell stack
    else if c == 13
    then members bare ∷ stack
    else if c == 14
    then add_member stack
    else stack

unfoldable pub run : List ℕ → List Item → List Item
run (c ∷ n ∷ line) stack = run line (command c n stack)
run _ stack = stack

unfoldable pub encode : Tree → List ℕ
encode t = encode_tree t

unfoldable pub decode : List ℕ → Option Tree
decode line = elim (run line []) [ tree t ∷ [] ↦ some t | _ ↦ none ]
