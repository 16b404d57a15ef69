-- ===== src/Log/Init.antt =====
-- What `init` makes of a whole pattern.
use cczoecpp.Common.{
  ℕ, zero, suc, ◌≤◌, ◌≡◌, ◌≢◌, refl, subst, ap, List, [], ◌∷◌, ◌++◌, length, append-nil, ◌==◌,
  Option, none, some, arith, Bool-cases, Option-cases, inl, inr,
}
use cczoecpp.Log.Formatter.{
  FormatItem, string, Parsed, items, overrun, stuck, simple_item, until_brace, date_item, directive,
  until_percent, push, init_loop, init,
}
use cczoecpp.Log.Pattern.{print, IsPrintable, Reads, Reads-print, round_directive}

Reads-nil : Reads [] (items [])
unfolding init_loop
Reads-nil zero k = refl
Reads-nil (suc n) k = refl

Reads-printed : (more : List FormatItem) → IsPrintable more → Reads (print more) (items more)
Reads-printed more h = subst (Reads (print more)) (ap items (append-nil more)) (
    subst (λ p. Reads p (push more (items []))) (append-nil (print more))
      (Reads-print more [] (items []) h Reads-nil))

-- `init` reads back the items that a pattern was printed from: texts that are not empty, hold no `%`
-- and are followed by a directive, dates with a format that is not empty and holds no `}`, and every
-- other directive.
pub init-print : (more : List FormatItem) → IsPrintable more → init (print more) ≡ items more
unfolding init
init-print more h = Reads-printed more h (length (print more)) (omega arith)

-- `%%` adds nothing to the items, where the documentation says that it writes a `%`: with it between
-- two patterns the items are those of the two.
pub percent_ignored :
    (before after : List FormatItem)
    → IsPrintable before
    → IsPrintable after
    → init (print before ++ 37 ∷ 37 ∷ print after) ≡ items (before ++ after)
unfolding init directive simple_item
percent_ignored before after h k =
    Reads-print before (37 ∷ 37 ∷ print after) (items after) h
      (round_directive (37 ∷ print after) (print after) [] (items after) refl (omega arith)
        (Reads-printed after k))
      (length (print before ++ 37 ∷ 37 ∷ print after)) (omega arith)

-- No part of the loop lengthens what is left.
abbrev left : Option (List ℕ × List ℕ) → ℕ
left none = 0
left (some (text, behind)) = length behind

until_brace_shorter : (p : List ℕ) → left (until_brace p) ≤ length p
unfolding until_brace
until_brace_shorter [] = omega arith
until_brace_shorter (c ∷ p) = ground (arith, until_brace_shorter p)

until_percent_shorter : (p : List ℕ) → left (until_percent p) ≤ length p
unfolding until_percent
until_percent_shorter [] = omega arith
until_percent_shorter (c ∷ p) = ground (arith, until_percent_shorter p)

date_item_shorter : (p : List ℕ) → length (date_item p).1 ≤ length p
unfolding date_item
date_item_shorter [] = omega arith
date_item_shorter (c ∷ p) = elim (Bool-cases (c == 123)) [
  | inr e ↦ rw (e, date_item) (omega arith)
  | inl e ↦ elim (Option-cases (until_brace p)) [
    | inl k ↦ rw (e, k, date_item) (omega arith)
    | inr (([], behind), k) ↦ rw (e, k, date_item) (omega arith)
    | inr ((x ∷ text, behind), k) ↦
        rw (e, k, date_item) (omega (arith, until_brace_shorter p, ap left k))
  ]
]

directive_shorter : (p : List ℕ) → length (directive p).1 ≤ length p
unfolding directive
directive_shorter [] = omega arith
directive_shorter (c ∷ p) = ground (arith, date_item_shorter p)

push_stuck : (xs : List FormatItem) (r : Parsed) → push xs r ≡ stuck → r ≡ stuck
push_stuck xs (items more) e = ground (arith, e)
push_stuck xs overrun e = ground (arith, e)
push_stuck xs stuck e = refl

init_loop_ends : (n : ℕ) (p : List ℕ) → length p ≤ n → init_loop n p ≢ stuck
unfolding init_loop
init_loop_ends zero [] h e = ground (arith, e)
init_loop_ends zero (c ∷ p) h e = absurd (omega arith)
init_loop_ends (suc n) [] h e = ground (arith, e)
init_loop_ends (suc n) (c ∷ p) h e = elim (Bool-cases (c == 37)) [
  | inl k ↦
      init_loop_ends n (directive p).1 (omega (arith, directive_shorter p, h))
        (push_stuck (directive p).0 (init_loop n (directive p).1) (rw (k, init_loop) at e))
  | inr k ↦ elim (Option-cases (until_percent p)) [
    | inl none_left ↦ ground (arith, e)
    | inr ((text, behind), f) ↦
        init_loop_ends n behind (omega (arith, until_percent_shorter p, ap left f, h))
          (push_stuck (string (c ∷ text) ∷ []) (init_loop n behind) (rw (k, f, init_loop) at e))
  ]
]

-- The length of the pattern is fuel enough: `init` ends, with items or with a read behind the end.
pub init_ends : (pattern : List ℕ) → init pattern ≢ stuck
unfolding init
init_ends pattern = init_loop_ends (length pattern) pattern (omega arith)
