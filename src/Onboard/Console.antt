-- ===== src/Onboard/Console.antt =====
-- The terminal that internal/onboard/onboard.go talks to: lines to be read, and what was printed.
use road.Base.{List, [], ◌∷◌, ◌++◌, Bytes, codes}

pub record Console : Type 0 where
  -- The lines that the user types; behind the last, reading ends at once and gives nothing.
  pub lines : List Bytes
  pub shown : List Bytes

-- `fmt.Print`
abbrev pub print : Console → Bytes → Console
print c text = record c { shown = c.shown ++ (text ∷ []) }

-- `fmt.Println`
abbrev pub println : Console → Bytes → Console
println c text = print c (text ++ codes "\n")

unfoldable pub read_line : Console → Bytes × Console
read_line c = elim c.lines [ [] ↦ ([], c) | line ∷ rest ↦ (line, record c { lines = rest }) ]

abbrev pub println_all : Console → List Bytes → Console
println_all c [] = c
println_all c (text ∷ texts) = println_all (println c text) texts

-- Texts with a line break between any two.
abbrev pub unlines : List Bytes → Bytes
unlines [] = []
unlines (text ∷ []) = text
unlines (text ∷ next ∷ texts) = text ++ (codes "\n" ++ unlines (next ∷ texts))
