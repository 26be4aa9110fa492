-- ===== src/Onboard/Shown.antt =====
-- internal/onboard/onboard.go: what the guide shows, and what it reads.
use mathlib.Core.List.{append_assoc, append-nil}
use road.Base.{
  inl, inr, Bool-cases, bytes_eq, if◌then◌else◌, utf8, ℕ, suc, ◌+◌, ◌≡◌, refl, sym, ap, ◌∙◌, List,
  [], ◌∷◌, ◌++◌, map, Bytes, codes, length, drop, get_or, drop-drop, arith, if◌then◌else◌, bytes_eq,
  Bool-cases, inl, inr,
}
use road.Onboard.Console.{Console, print, println, println_all, read_line}
use road.Onboard.Guide.{
  page_prompt, print_sections, choose_language, print_guide_en, print_guide_ru, run,
}
use road.Onboard.English.{banner_en, sections_en, continue_en, setup_en, generate_en}
use road.Onboard.Russian.{banner_ru, sections_ru, continue_ru, setup_ru, generate_ru}

-- A guide in one language.
pub record Text : Type 0 where
  pub banner : Bytes
  pub sections : List Bytes
  pub continue : Bytes
  pub setup : List Bytes
  pub generate : Bytes

abbrev pub english : Text
english = record {
  banner = banner_en;
  sections = sections_en;
  continue = continue_en;
  setup = setup_en;
  generate = generate_en;
}

abbrev pub russian : Text
russian = record {
  banner = banner_ru;
  sections = sections_ru;
  continue = continue_ru;
  setup = setup_ru;
  generate = generate_ru;
}

abbrev pub line : Bytes → Bytes
line text = text ++ codes "\n"

-- The sections in their order, each followed by its number and the request to go on.
abbrev pub pages : ℕ → ℕ → Bytes → List Bytes → List Bytes
pages i n text [] = []
pages i n text (section ∷ rest) =
    line section ∷ line [] ∷ page_prompt (i + 1) n text ∷ line [] ∷ pages (suc i) n text rest

abbrev pub shown_of : Text → List Bytes
shown_of t =
    (line t.banner ∷ line [] ∷ pages 0 (length t.sections) t.continue t.sections)
    ++ (map line t.setup ++ (t.generate ∷ []))

-- The terminal after `n` lines were read and `texts` were shown.
abbrev pub after : Console → ℕ → List Bytes → Console
after c n texts = record { lines = drop n c.lines; shown = c.shown ++ texts }

read_line-of :
    (lines shown : List Bytes)
    → read_line (record { lines = lines; shown = shown })
      ≡ (get_or lines 0 [], record { lines = drop 1 lines; shown = shown })
unfolding read_line
read_line-of [] shown = refl
read_line-of (l ∷ ls) shown = refl

read_line-after :
    (c : Console) → read_line c ≡ (get_or c.lines 0 [], record c { lines = drop 1 c.lines })
read_line-after c = read_line-of c.lines c.shown

println_all-after :
    (c : Console) (texts : List Bytes) → println_all c texts ≡ after c 0 (map line texts)
println_all-after c [] = ap (λ s. record c { shown = s }) (sym (append-nil c.shown))
println_all-after c (text ∷ texts) =
    println_all-after (println c text) texts
    ∙ ap (λ s. record c { shown = s }) (append_assoc c.shown (line text ∷ []) (map line texts))

after-after :
    (c : Console) (m n k : ℕ) (xs ys : List Bytes)
    → m + n ≡ k
    → after (after c m xs) n ys ≡ after c k (xs ++ ys)
after-after c m n k xs ys e =
    rw (← e, drop-drop m n c.lines)
      (ap (λ s. record { lines = drop n (drop m c.lines); shown = s }) (append_assoc c.shown xs ys))

print_sections-after :
    (c : Console) (i n : ℕ) (text : Bytes) (sections : List Bytes)
    → print_sections c i n text sections ≡ after c (length sections) (pages i n text sections)
unfolding print_sections
print_sections-after c i n text [] = ap (λ s. record c { shown = s }) (sym (append-nil c.shown))
print_sections-after c i n text (section ∷ rest) =
    let c1 = print (println (println c section) []) (page_prompt (i + 1) n text) in
    let page = line section ∷ line [] ∷ page_prompt (i + 1) n text ∷ line [] ∷ [] in
    let e : println (read_line c1).1 [] ≡ after c 1 page =
      rw (read_line-after c1)
        (ap (λ s. record { lines = drop 1 c.lines; shown = s }) (simp append_assoc)) in
    ap (λ c. print_sections c (suc i) n text rest) e
    ∙ print_sections-after (after c 1 page) (suc i) n text rest
    ∙ after-after c 1 (length rest) (suc (length rest)) page (pages (suc i) n text rest)
        (omega arith)

print_guide-after :
    (c : Console) (t : Text)
    → (read_line (
        print
          (println_all
            (print_sections
              (println (println c t.banner) [])
              0
              (length t.sections)
              t.continue
              t.sections)
            t.setup)
          t.generate)).1
      ≡ after c (length t.sections + 1) (shown_of t)
print_guide-after c t =
    let top = line t.banner ∷ line [] ∷ [] in
    let body = pages 0 (length t.sections) t.continue t.sections in
    let n = length t.sections in
    let e0 : println (println c t.banner) [] ≡ after c 0 top =
      ap (λ s. record c { shown = s }) (append_assoc c.shown (line t.banner ∷ []) (line [] ∷ [])) in
    let e1 : print_sections (after c 0 top) 0 n t.continue t.sections ≡ after c n (top ++ body) =
      print_sections-after (after c 0 top) 0 n t.continue t.sections
      ∙ after-after c 0 n n top body (omega arith) in
    let e2 : println_all (after c n (top ++ body)) t.setup
        ≡ after c n ((top ++ body) ++ map line t.setup) =
      println_all-after (after c n (top ++ body)) t.setup
      ∙ after-after c n 0 n (top ++ body) (map line t.setup) (omega arith) in
    rw (e0, e1, e2)
      (ap (λ r. r.1)
          (read_line-after (print (after c n ((top ++ body) ++ map line t.setup)) t.generate))
        ∙ after-after c n 1 (n + 1) ((top ++ body) ++ map line t.setup) (t.generate ∷ []) refl
        ∙ ap (after c (n + 1)) (append_assoc (top ++ body) (map line t.setup) (t.generate ∷ [])))

-- The choice of the language, and the line break behind the answer.
abbrev pub opening : List Bytes
opening =
    map line (
      []
      ∷ utf8 "  road-1337 — First Launch Setup"
      ∷ []
      ∷ utf8 "  Select language / Выберите язык:"
      ∷ []
      ∷ codes "    1  English"
      ∷ utf8 "    2  Русский"
      ∷ []
      ∷ [])
    ++ (codes "  > " ∷ line [] ∷ [])

choose_language-after :
    (c : Console) → println (read_line (choose_language c)).1 [] ≡ after c 1 opening
unfolding choose_language
choose_language-after c =
    rw (read_line-after (choose_language c))
      (ap (λ s. record { lines = drop 1 c.lines; shown = s }) (simp append_assoc))

choose_language-reads : (c : Console) → (read_line (choose_language c)).0 ≡ get_or c.lines 0 []
unfolding choose_language
choose_language-reads c = ap (λ r. r.0) (read_line-after (choose_language c))

guide_en-after : (c : Console) → print_guide_en c ≡ after c 5 (shown_of english)
unfolding print_guide_en
guide_en-after c = print_guide-after c english

guide_ru-after : (c : Console) → print_guide_ru c ≡ after c 5 (shown_of russian)
unfolding print_guide_ru
guide_ru-after c = print_guide-after c russian

-- The wizard ends on any input, also one that is at its end. It takes six lines, and shows the
-- choice of the language and then the whole guide, all sections in their order with their numbers:
-- the Russian one if the first line is a 2 once it is trimmed, and the English one for any other.
-- Nothing else that is typed changes what is shown.
pub run_lem :
    (trim : Bytes → Bytes) (c : Console)
    → run trim c
      ≡ after c 6 (
          opening
          ++ shown_of
              (if bytes_eq (trim (get_or c.lines 0 [])) (codes "2") then russian else english))
unfolding run
run_lem trim c = elim (Bool-cases (bytes_eq (trim (get_or c.lines 0 [])) (codes "2"))) [
  | inl e ↦
      rw (choose_language-reads c, e)
        (ap print_guide_ru (choose_language-after c)
          ∙ guide_ru-after (after c 1 opening)
          ∙ after-after c 1 5 6 opening (shown_of russian) refl)
  | inr e ↦
      rw (choose_language-reads c, e)
        (ap print_guide_en (choose_language-after c)
          ∙ guide_en-after (after c 1 opening)
          ∙ after-after c 1 5 6 opening (shown_of english) refl)
]
