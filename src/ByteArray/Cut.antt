-- ===== src/ByteArray/Cut.antt =====
-- The chain of blocks, cut at the node of the cursor.
use native.Mathlib.Nat.{div-add-mod, mod-lt, mul-add-div}
use cczoecpp.Common.{
  ℕ, suc, ◌+◌, ◌*◌, ◌/◌, ◌%◌, ◌<◌, ◌≡◌, ap, sym, ◌∙◌, subst, List, ◌∷◌, ◌++◌, some, length, flatten,
  arith, All, All-left, All-right, length-append, length-flatten, split_at,
}
use cczoecpp.ByteArray.{ByteArray}
use cczoecpp.ByteArray.IsValid.{IsValid, node_room, cursor_node}

pub record Cut (s : ByteArray) : Type 0 where
  pub front : List (List ℕ)
  pub node : List ℕ
  pub back : List (List ℕ)
  pub chain : s.blocks ≡ front ++ node ∷ back
  pub here : s.curr ≡ some (length front)
  pub front_sized : All (λ b. length b ≡ s.base_size) front
  pub sized : All (λ b. length b ≡ s.base_size) (node ∷ back)
  pub index : length front ≡ s.position / s.base_size
  pub inside : s.position % s.base_size < s.base_size
  pub room : s.capacity + s.position % s.base_size ≡ s.position + suc (length back) * s.base_size
  pub before : s.position ≡ length (flatten front) + s.position % s.base_size

-- A valid state with room behind its position can be cut.
pub cut : (s : ByteArray) → IsValid s → s.position < s.capacity → Cut s
cut s v h =
    let (front, node, back, chain, index) =
      split_at (s.position / s.base_size) s.blocks (node_room v h) in
    let sized : All (λ b. length b ≡ s.base_size) (front ++ node ∷ back) =
      subst (All (λ b. length b ≡ s.base_size)) chain v.sized in
    let front_sized = All-left _ front (node ∷ back) sized in
    record {
      front = front;
      node = node;
      back = back;
      chain = chain;
      here = cursor_node v h ∙ ap some (sym index);
      front_sized = front_sized;
      sized = All-right _ front (node ∷ back) sized;
      index = index;
      inside = mod-lt s.position v.base_pos;
      room = omega (
        arith,
        div-add-mod s.position s.base_size,
        v.counted,
        ap (λ (t : List (List ℕ)). length t * s.base_size) chain,
        ap (λ (t : ℕ). t * s.base_size) (length-append front (node ∷ back)),
        ap (λ (t : ℕ). s.base_size * t) index,
      );
      before = omega (
        arith,
        div-add-mod s.position s.base_size,
        length-flatten s.base_size front front_sized,
        ap (λ (t : ℕ). s.base_size * t) index,
      );
    }

-- The node that holds the byte `n` behind the position.
pub node_behind :
    (s : ByteArray) (c : Cut s) (n : ℕ)
    → length c.front + (s.position % s.base_size + n) / s.base_size ≡ (s.position + n) / s.base_size
node_behind s c n = omega (
  arith,
  c.index,
  mul-add-div {m = s.base_size} (omega (arith, c.inside)) (s.position / s.base_size)
      (s.position % s.base_size + n),
  ap (λ (t : ℕ). t / s.base_size) regroup,
)
  where
    regroup :
        s.base_size * (s.position / s.base_size) + (s.position % s.base_size + n) ≡ s.position + n
    regroup = omega (arith, div-add-mod s.position s.base_size)
