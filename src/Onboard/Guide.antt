-- ===== src/Onboard/Guide.antt =====
-- internal/onboard/onboard.go: `Run` and the two guides. `trim` is `strings.TrimSpace`.
use road.Base.{
  ℕ, suc, ◌+◌, List, [], ◌∷◌, ◌++◌, if◌then◌else◌, Bytes, codes, utf8, bytes_eq, decimal, length,
}
use road.Onboard.Console.{Console, print, println, println_all, read_line}
use road.Onboard.English.{banner_en, sections_en, continue_en, setup_en, generate_en}
use road.Onboard.Russian.{banner_ru, sections_ru, continue_ru, setup_ru, generate_ru}

-- `  [i/n]`, and what is asked for.
unfoldable pub page_prompt : ℕ → ℕ → Bytes → Bytes
page_prompt i n text =
    codes "  [" ++ (decimal i ++ (codes "/" ++ (decimal n ++ (codes "]" ++ text))))

-- The loop over the sections, from the one with index `i` on.
unfoldable pub print_sections : Console → ℕ → ℕ → Bytes → List Bytes → Console
unfolding page_prompt read_line
print_sections c i n text [] = c
print_sections c i n text (section ∷ rest) =
    let c1 = print (println (println c section) []) (page_prompt (i + 1) n text) in
    let (line, c2) = read_line c1 in print_sections (println c2 []) (suc i) n text rest

unfoldable pub print_guide_en : Console → Console
unfolding print_sections
print_guide_en c =
    let c1 = println (println c banner_en) [] in
    let c2 = print_sections c1 0 (length sections_en) continue_en sections_en in
    let (line, c3) = read_line (print (println_all c2 setup_en) generate_en) in c3

unfoldable pub print_guide_ru : Console → Console
unfolding print_sections
print_guide_ru c =
    let c1 = println (println c banner_ru) [] in
    let c2 = print_sections c1 0 (length sections_ru) continue_ru sections_ru in
    let (line, c3) = read_line (print (println_all c2 setup_ru) generate_ru) in c3

-- The choice of the language, as it is printed before the first line is read.
unfoldable pub choose_language : Console → Console
choose_language c =
    print
      (println_all c (
        []
        ∷ utf8 "  road-1337 — First Launch Setup"
        ∷ []
        ∷ utf8 "  Select language / Выберите язык:"
        ∷ []
        ∷ codes "    1  English"
        ∷ utf8 "    2  Русский"
        ∷ []
        ∷ []))
      (codes "  > ")

unfoldable pub run : (Bytes → Bytes) → Console → Console
unfolding print_guide_en print_guide_ru choose_language
run trim c =
    let (line, c1) = read_line (choose_language c) in
    let c2 = println c1 [] in
    if bytes_eq (trim line) (codes "2") then print_guide_ru c2 else print_guide_en c2
