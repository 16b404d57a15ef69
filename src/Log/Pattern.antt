-- ===== src/Log/Pattern.antt =====
-- What the loop of `init` reads: patterns that items print, texts at the end, and its termination.
use cczoecpp.Common.{
  ℕ, zero, suc, ◌≤◌, ◌≡◌, ◌≢◌, refl, subst, ap, sym, ◌∙◌, List, [], ◌∷◌, ◌++◌, All, length,
  length-append, ◌==◌, none, some, Bool, true, false, append_assoc, arith,
}
use cczoecpp.Log.Formatter.{
  FormatItem, message, level, name, thread_name, thread_id, fiber_id, filename, line, new_line, tab,
  elapse, date_time, string, Parsed, items, overrun, stuck, simple_item, until_brace, date_item,
  directive, until_percent, push, init_loop,
}

-- The pattern of an item.
abbrev pub print_item : FormatItem → List ℕ
print_item message = 37 ∷ 109 ∷ []
print_item level = 37 ∷ 112 ∷ []
print_item name = 37 ∷ 99 ∷ []
print_item thread_name = 37 ∷ 78 ∷ []
print_item thread_id = 37 ∷ 116 ∷ []
print_item fiber_id = 37 ∷ 70 ∷ []
print_item filename = 37 ∷ 102 ∷ []
print_item line = 37 ∷ 108 ∷ []
print_item new_line = 37 ∷ 110 ∷ []
print_item tab = 37 ∷ 84 ∷ []
print_item elapse = []
print_item (date_time text) = 37 ∷ 100 ∷ 123 ∷ (text ++ 125 ∷ [])
print_item (string text) = text

abbrev pub print : List FormatItem → List ℕ
print [] = []
print (item ∷ more) = print_item item ++ print more

-- The items that a pattern can write: a text is not empty, has no `%`, and a directive follows it;
-- a date has a text without `}`; nothing writes the running time.
abbrev pub starts_directive : List FormatItem → Bool
starts_directive [] = false
starts_directive (string text ∷ more) = false
starts_directive (item ∷ more) = true

abbrev pub Follows : FormatItem → List FormatItem → Type 0
Follows elapse more = true ≡ false
Follows (date_time text) more = (text ≢ []) × All (λ c. c ≢ 125) text
Follows (string text) more = (starts_directive more ≡ true) × (text ≢ []) × All (λ c. c ≢ 37) text
Follows item more = Unit

abbrev pub IsPrintable : List FormatItem → Type 0
IsPrintable [] = Unit
IsPrintable (item ∷ more) = Follows item more × IsPrintable more

until_brace_lem :
    (text behind : List ℕ)
    → All (λ c. c ≢ 125) text
    → until_brace (text ++ 125 ∷ behind) ≡ some (text, behind)
unfolding until_brace
until_brace_lem [] behind h = refl
until_brace_lem (c ∷ text) behind (n, h) = ground (arith, until_brace_lem text behind h)

until_percent_lem :
    (text behind : List ℕ)
    → All (λ c. c ≢ 37) text
    → until_percent (text ++ 37 ∷ behind) ≡ some (text, 37 ∷ behind)
unfolding until_percent
until_percent_lem [] behind h = refl
until_percent_lem (c ∷ text) behind (n, h) = ground (arith, until_percent_lem text behind h)

pub until_percent-none : (text : List ℕ) → All (λ c. c ≢ 37) text → until_percent text ≡ none
unfolding until_percent
until_percent-none [] h = refl
until_percent-none (c ∷ text) (n, h) = ground (arith, until_percent-none text h)

push-push : (xs ys : List FormatItem) (r : Parsed) → push xs (push ys r) ≡ push (xs ++ ys) r
push-push xs ys (items more) = ap items (sym (append_assoc xs ys more))
push-push xs ys overrun = refl
push-push xs ys stuck = refl

-- What the loop makes of a pattern, with every fuel that is enough.
abbrev pub Reads : List ℕ → Parsed → Type 0
Reads pattern r = (n : ℕ) → length pattern ≤ n → init_loop n pattern ≡ r

-- One round on `%`.
pub round_directive :
    (rest behind : List ℕ) (pushed : List FormatItem) (r : Parsed)
    → directive rest ≡ (pushed, behind)
    → length behind ≤ length rest
    → Reads behind r
    → Reads (37 ∷ rest) (push pushed r)
unfolding init_loop
round_directive rest behind pushed r e l later zero k = absurd (omega arith)
round_directive rest behind pushed r e l later (suc fuel) k =
    rw (e, init_loop) (ap (push pushed) (later fuel (omega (arith, l, k))))

-- One round on a text.
round_text :
    (c : ℕ) (text behind : List ℕ) (r : Parsed)
    → All (λ x. x ≢ 37) (c ∷ text)
    → Reads (37 ∷ behind) r
    → Reads (c ∷ (text ++ 37 ∷ behind)) (push (string (c ∷ text) ∷ []) r)
unfolding init_loop
round_text c text behind r h later zero k = absurd (omega arith)
round_text c text behind r (n, h) later (suc fuel) k =
    let e : (c == 37) ≡ false = ground arith in
    rw (e, until_percent_lem text behind h, init_loop)
      (ap (push (string (c ∷ text) ∷ []))
        (later fuel (omega (arith, k, length-append text (37 ∷ behind)))))

date_item_lem :
    (text behind : List ℕ)
    → text ≢ []
    → All (λ c. c ≢ 125) text
    → date_item (123 ∷ (text ++ 125 ∷ behind)) ≡ (date_time text, behind)
unfolding date_item
date_item_lem [] behind n h = absurd (n refl)
date_item_lem (c ∷ text) behind n h = rw (until_brace_lem (c ∷ text) behind h, date_item)

directive_date :
    (text behind : List ℕ)
    → text ≢ []
    → All (λ c. c ≢ 125) text
    → directive (100 ∷ 123 ∷ (text ++ 125 ∷ behind)) ≡ (date_time text ∷ [], behind)
unfolding directive
directive_date text behind n h = rw (date_item_lem text behind n h, directive)

step :
    (pattern : List ℕ) (xs more : List FormatItem) (r : Parsed)
    → Reads pattern (push xs (push more r))
    → Reads pattern (push (xs ++ more) r)
step pattern xs more r h n k = h n k ∙ push-push xs more r

print-directive :
    (more : List FormatItem)
    → starts_directive more ≡ true
    → IsPrintable more
    → (behind : List ℕ) × (print more ≡ 37 ∷ behind)
print-directive [] s h = ground arith
print-directive (message ∷ more) s h = (_, refl)
print-directive (level ∷ more) s h = (_, refl)
print-directive (name ∷ more) s h = (_, refl)
print-directive (thread_name ∷ more) s h = (_, refl)
print-directive (thread_id ∷ more) s h = (_, refl)
print-directive (fiber_id ∷ more) s h = (_, refl)
print-directive (filename ∷ more) s h = (_, refl)
print-directive (line ∷ more) s h = (_, refl)
print-directive (new_line ∷ more) s h = (_, refl)
print-directive (tab ∷ more) s h = (_, refl)
print-directive (elapse ∷ more) s (g, h) = ground (arith, g)
print-directive (date_time text ∷ more) s h = (_, refl)
print-directive (string text ∷ more) s h = ground (arith, s)

-- The items of a printed pattern come first, then what its end gives.
pub Reads-print :
    (more : List FormatItem) (end : List ℕ) (r : Parsed)
    → IsPrintable more
    → Reads end r
    → Reads (print more ++ end) (push more r)
unfolding init_loop directive simple_item
Reads-print [] end (items more) h later = later
Reads-print [] end overrun h later = later
Reads-print [] end stuck h later = later
Reads-print (message ∷ more) end r (g, h) later = step _ (message ∷ []) more r (
    round_directive (109 ∷ (print more ++ end)) (print more ++ end) (message ∷ []) (push more r)
      refl (omega arith) (Reads-print more end r h later))
Reads-print (level ∷ more) end r (g, h) later = step _ (level ∷ []) more r (
    round_directive (112 ∷ (print more ++ end)) (print more ++ end) (level ∷ []) (push more r) refl
      (omega arith) (Reads-print more end r h later))
Reads-print (name ∷ more) end r (g, h) later = step _ (name ∷ []) more r (
    round_directive (99 ∷ (print more ++ end)) (print more ++ end) (name ∷ []) (push more r) refl
      (omega arith) (Reads-print more end r h later))
Reads-print (thread_name ∷ more) end r (g, h) later = step _ (thread_name ∷ []) more r (
    round_directive (78 ∷ (print more ++ end)) (print more ++ end) (thread_name ∷ []) (push more r)
      refl (omega arith) (Reads-print more end r h later))
Reads-print (thread_id ∷ more) end r (g, h) later = step _ (thread_id ∷ []) more r (
    round_directive (116 ∷ (print more ++ end)) (print more ++ end) (thread_id ∷ []) (push more r)
      refl (omega arith) (Reads-print more end r h later))
Reads-print (fiber_id ∷ more) end r (g, h) later = step _ (fiber_id ∷ []) more r (
    round_directive (70 ∷ (print more ++ end)) (print more ++ end) (fiber_id ∷ []) (push more r)
      refl (omega arith) (Reads-print more end r h later))
Reads-print (filename ∷ more) end r (g, h) later = step _ (filename ∷ []) more r (
    round_directive (102 ∷ (print more ++ end)) (print more ++ end) (filename ∷ []) (push more r)
      refl (omega arith) (Reads-print more end r h later))
Reads-print (line ∷ more) end r (g, h) later = step _ (line ∷ []) more r (
    round_directive (108 ∷ (print more ++ end)) (print more ++ end) (line ∷ []) (push more r) refl
      (omega arith) (Reads-print more end r h later))
Reads-print (new_line ∷ more) end r (g, h) later = step _ (new_line ∷ []) more r (
    round_directive (110 ∷ (print more ++ end)) (print more ++ end) (new_line ∷ []) (push more r)
      refl (omega arith) (Reads-print more end r h later))
Reads-print (tab ∷ more) end r (g, h) later = step _ (tab ∷ []) more r (
    round_directive (84 ∷ (print more ++ end)) (print more ++ end) (tab ∷ []) (push more r) refl
      (omega arith) (Reads-print more end r h later))
Reads-print (elapse ∷ more) end r (g, h) later = ground (arith, g)
Reads-print (date_time text ∷ more) end r ((n, g), h) later =
    subst (λ p. Reads p (push (date_time text ∷ more) r)) (sym e)
      (step _ (date_time text ∷ []) more r (
        round_directive (100 ∷ 123 ∷ (text ++ 125 ∷ (print more ++ end))) (print more ++ end)
          (date_time text ∷ []) (push more r) (directive_date text (print more ++ end) n g)
          (omega (arith, length-append text (125 ∷ (print more ++ end))))
          (Reads-print more end r h later)))
  where
    e : print (date_time text ∷ more) ++ end ≡ 37 ∷ 100 ∷ 123 ∷ (text ++ 125 ∷ (print more ++ end))
    e = ap (λ xs. 37 ∷ 100 ∷ 123 ∷ xs) (simp append_assoc refl)
Reads-print (string [] ∷ more) end r ((s, n, g), h) later = absurd (n refl)
Reads-print (string (c ∷ text) ∷ more) end r ((s, n, g), h) later =
    let (behind, e) = print-directive more s h in
    subst (λ p. Reads p (push (string (c ∷ text) ∷ more) r))
      (ap (◌∷◌ c)
        (ap (λ xs. text ++ (xs ++ end)) (sym e) ∙ sym (append_assoc text (print more) end)))
      (step _ (string (c ∷ text) ∷ []) more r (
        round_text c text (behind ++ end) (push more r) g
          (subst (λ p. Reads (p ++ end) (push more r)) e (Reads-print more end r h later))))
