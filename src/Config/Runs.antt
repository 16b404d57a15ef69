-- ===== src/Config/Runs.antt =====
-- Two variables and a file, and the theorems at them.
use cczoecpp.Common.{ℕ, ◌≡◌, refl, List, [], ◌∷◌, none, some, Option, Bool, arith, get_elem?}
use cczoecpp.Common.Text.{bytes_of, same_bytes}
use cczoecpp.Config.Vars.{Config, Node, scalar, mapping, nil, entry, load_from_yaml}
use cczoecpp.Config.Load.{upper_case_missed, IsUpper}
use cczoecpp.Common.{
  zero, suc, ap, ap₂, ◌∙◌, ◌++◌, ◌≤◌, length, take, drop, take-append, drop-append, length-append,
}
use cczoecpp.Config.Cast.{Yaml, from_map, to_map, insert_ordered}
use cczoecpp.Config.Trips.{ReadsBack, key_less, map_round_trip}

-- The values are texts, and every conversion succeeds.
abbrev same : ℕ → List ℕ → List ℕ → Bool
same type = same_bytes

abbrev convert : ℕ → List ℕ → Option (List ℕ)
convert type text = some text

abbrev text_value : List ℕ → List ℕ
text_value text = text

abbrev two_vars : Config (List ℕ)
two_vars = record {
  vars =
      record { name = bytes_of "Port"; type = 1; val = bytes_of "80"; callbacks = (1, 5) ∷ [] }
      ∷ record { name = bytes_of "log.level"; type = 0; val = bytes_of "info"; callbacks = [] }
      ∷ [];
  datas = (bytes_of "Port", 0) ∷ (bytes_of "log.level", 1) ∷ [];
  notices = [];
}

abbrev a_file : Node
a_file = mapping (
    entry (bytes_of "Port") (scalar (bytes_of "81")) (
      entry (bytes_of "Log") (mapping (entry (bytes_of "Level") (scalar (bytes_of "warn")) nil))
        nil))

Port-IsUpper : IsUpper 0 two_vars.datas
Port-IsUpper = (λ h k. ground (arith, k), (λ h. ground (arith, h), tt))

upper_case_missed_example :
    get_elem? (load_from_yaml same convert text_value a_file two_vars).vars 0
    ≡ get_elem? two_vars.vars 0
upper_case_missed_example =
    upper_case_missed same convert text_value a_file 0 two_vars (omega arith) Port-IsUpper

-- Texts in one, each behind its length, and the texts read back from it.
abbrev joined : List (List ℕ) → List ℕ
joined [] = []
joined (x ∷ xs) = length x ∷ x ++ joined xs

abbrev parts : ℕ → List ℕ → List (List ℕ)
parts zero text = []
parts (suc fuel) [] = []
parts (suc fuel) (n ∷ text) = take n text ∷ parts fuel (drop n text)

parts-joined :
    (fuel : ℕ) (xs : List (List ℕ)) → length (joined xs) ≤ fuel → parts fuel (joined xs) ≡ xs
parts-joined zero [] h = refl
parts-joined (suc fuel) [] h = refl
parts-joined zero (x ∷ xs) h = absurd (omega arith)
parts-joined (suc fuel) (x ∷ xs) h =
    ap₂ (λ (y : List ℕ) ys. y ∷ ys) (take-append x (joined xs))
      (ap (parts fuel) (drop-append x (joined xs))
        ∙ parts-joined fuel xs (omega (arith, h, length-append x (joined xs))))

abbrev in_pairs : List (List ℕ × List ℕ) → List (List ℕ)
in_pairs [] = []
in_pairs ((k, n) ∷ more) = k ∷ n ∷ in_pairs more

abbrev pairs_of : List (List ℕ) → List (List ℕ × List ℕ)
pairs_of [] = []
pairs_of (k ∷ []) = []
pairs_of (k ∷ n ∷ more) = (k, n) ∷ pairs_of more

pairs_of-in_pairs : (more : List (List ℕ × List ℕ)) → pairs_of (in_pairs more) ≡ more
pairs_of-in_pairs [] = refl
pairs_of-in_pairs ((k, n) ∷ more) = ap (λ rest. (k, n) ∷ rest) (pairs_of-in_pairs more)

abbrev as_text : Yaml (List ℕ)
as_text = record {
  load = λ text. some text;
  emit = λ text. text;
  sequence = joined;
  items = λ text. parts (length text) text;
  mapping = λ more. joined (in_pairs more);
  entries = λ text. pairs_of (parts (length text) text);
}

as_text-ReadsBack : ReadsBack as_text
as_text-ReadsBack = record {
  load_sequence = λ ns. (joined ns, refl, parts-joined (length (joined ns)) ns (omega arith));
  load_mapping = λ ns once. (
    joined (in_pairs ns),
    refl,
    ap pairs_of (parts-joined (length (joined (in_pairs ns))) (in_pairs ns) (omega arith))
        ∙ pairs_of-in_pairs ns,
  );
}

-- An element is a text of one byte.
abbrev byte_to_string : ℕ → Option (List ℕ)
byte_to_string x = some (x ∷ [])

abbrev byte_from_string : List ℕ → Option ℕ
byte_from_string [] = none
byte_from_string (x ∷ text) = some x

abbrev two_entries : List (List ℕ × ℕ)
two_entries = (bytes_of "a", 7) ∷ (bytes_of "b", 5) ∷ []

map_round_trip_example :
    (text : List ℕ) × (from_map as_text byte_to_string two_entries ≡ some text)
    × (to_map as_text byte_from_string (insert_ordered key_less) text ≡ some two_entries)
map_round_trip_example =
    map_round_trip as_text byte_to_string byte_from_string two_entries as_text-ReadsBack
      ((7 ∷ [], 7 ∷ [], refl, refl, refl), ((5 ∷ [], 5 ∷ [], refl, refl, refl), tt))
      (((refl, refl), tt), (tt, tt))
