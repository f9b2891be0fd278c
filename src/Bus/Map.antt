-- ===== src/Bus/Map.antt =====
-- bus/memorymap.c: a red-black tree of address ranges. The nodes are an array that is linked by
-- index; index 0 is the nil node. What a mapping calls is of a type of the client.
use cen.Base.{
  List, [], ◌∷◌, ℕ, zero, suc, ◌+◌, ◌-◌, Bool, true, false, not, ◌&&◌, Option, none, some, ltb, leb,
  ◌==◌, if◌then◌else◌, u32, sub32, get_or, replicate,
}

-- struct memory_mapping.
pub record Mapping (Handler : Type 0) : Type 0 where
  pub handler : Handler
  pub length : ℕ
  pub start : ℕ
  pub last : ℕ

-- struct memory_map_node.
pub record Node (Handler : Type 0) : Type 0 where
  pub left : ℕ
  pub parent : ℕ
  pub right : ℕ
  pub mapping : Mapping Handler
  pub red : Bool

-- struct memory_map.
pub record MemoryMap (Handler : Type 0) : Type 0 where
  pub mappings : List (Node Handler)
  pub root : ℕ
  pub next_map_index : ℕ

abbrev pub num_nodes : ℕ
num_nodes = 19

module _ {Handler : Type 0} where
  abbrev pub modify : (Node Handler → Node Handler) → ℕ → List (Node Handler) → List (Node Handler)
  modify f i [] = []
  modify f zero (x ∷ xs) = f x ∷ xs
  modify f (suc i) (x ∷ xs) = x ∷ modify f i xs

module _ {Handler : Type 0} (no_handler : Handler) where
  abbrev pub blank : Node Handler
  blank = record {
    left = 0;
    parent = 0;
    right = 0;
    mapping = record { handler = no_handler; length = 0; start = 0; last = 0 };
    red = false;
  }

  unfoldable pub create_memory_map : MemoryMap Handler
  create_memory_map = record { mappings = replicate num_nodes blank; root = 0; next_map_index = 1 }

  unfoldable pub at : MemoryMap Handler → ℕ → Node Handler
  at m i = get_or m.mappings i blank

  unfoldable pub set_left : MemoryMap Handler → ℕ → ℕ → MemoryMap Handler
  set_left m i j = record m { mappings = modify (λ n. record n { left = j }) i m.mappings }

  unfoldable pub set_right : MemoryMap Handler → ℕ → ℕ → MemoryMap Handler
  set_right m i j = record m { mappings = modify (λ n. record n { right = j }) i m.mappings }

  unfoldable pub set_parent : MemoryMap Handler → ℕ → ℕ → MemoryMap Handler
  set_parent m i j = record m { mappings = modify (λ n. record n { parent = j }) i m.mappings }

  unfoldable pub paint : MemoryMap Handler → ℕ → Bool → MemoryMap Handler
  paint m i c = record m { mappings = modify (λ n. record n { red = c }) i m.mappings }

  -- The parent of n, or the root of the tree, has y in the place of n.
  unfoldable pub replace_child : MemoryMap Handler → ℕ → ℕ → MemoryMap Handler
  unfolding at set_left set_right
  replace_child m n y =
      let p = (at m n).parent in
      if p == 0
      then record m { root = y }
      else if n == (at m p).left
      then set_left m p y
      else set_right m p y

  unfoldable pub rotate_left : MemoryMap Handler → ℕ → MemoryMap Handler
  unfolding at set_left set_right set_parent replace_child
  rotate_left m n =
      let y = (at m n).right in
      let m1 = set_right m n (at m y).left in
      let m2 = if not ((at m1 y).left == 0) then set_parent m1 (at m1 y).left n else m1 in
      let m3 = set_parent m2 y (at m2 n).parent in
      let m4 = replace_child m3 n y in set_parent (set_left m4 y n) n y

  unfoldable pub rotate_right : MemoryMap Handler → ℕ → MemoryMap Handler
  unfolding at set_left set_right set_parent replace_child
  rotate_right m n =
      let y = (at m n).left in
      let m1 = set_left m n (at m y).right in
      let m2 = if not ((at m1 y).right == 0) then set_parent m1 (at m1 y).right n else m1 in
      let m3 = set_parent m2 y (at m2 n).parent in
      let m4 = replace_child m3 n y in set_parent (set_right m4 y n) n y

  -- Case 1 of `fixup`: only the colours change, and the work goes on at the grandparent.
  unfoldable pub recolor : MemoryMap Handler → ℕ → ℕ → MemoryMap Handler
  unfolding at paint
  recolor m node cur =
      let m1 = paint m (at m node).parent false in
      let m2 = paint m1 cur false in paint m2 (at m2 (at m2 node).parent).parent true

  -- Case 3: the colours of the parent and the grandparent.
  unfoldable pub repaint : MemoryMap Handler → ℕ → MemoryMap Handler
  unfolding at paint
  repaint m node =
      let m1 = paint m (at m node).parent false in paint m1 (at m1 (at m1 node).parent).parent true

  unfoldable pub blacken_root : MemoryMap Handler → MemoryMap Handler
  unfolding paint
  blacken_root m = paint m m.root false

  -- The loop of `fixup`, on fuel, with the colour of the root at the end.
  unfoldable pub fixup : ℕ → MemoryMap Handler → ℕ → Option (MemoryMap Handler)
  unfolding at rotate_left rotate_right recolor repaint blacken_root
  fixup zero m node = none
  fixup (suc fuel) m node = elim ((at m (at m node).parent).red) [
    | false ↦ some (blacken_root m)
    | true ↦
        let p = (at m node).parent in
        let g = (at m p).parent in
        elim (p == (at m g).left) [
          | true ↦ elim ((at m (at m g).right).red) [
            | true ↦ fixup fuel (recolor m node (at m g).right) g
            | false ↦
                let node' = if node == (at m p).right then p else node in
                let m1 = if node == (at m p).right then rotate_left m p else m in
                let m2 = repaint m1 node' in
                fixup fuel (rotate_right m2 (at m2 (at m2 node').parent).parent) node'
          ]
          | false ↦ elim ((at m (at m g).left).red) [
            | true ↦ fixup fuel (recolor m node (at m g).left) g
            | false ↦
                let node' = if node == (at m p).left then p else node in
                let m1 = if node == (at m p).left then rotate_right m p else m in
                let m2 = repaint m1 node' in
                fixup fuel (rotate_left m2 (at m2 (at m2 node').parent).parent) node'
          ]
        ]
  ]

  -- The walk down to the place of a new node: the last node on the way.
  unfoldable pub walk_down : ℕ → MemoryMap Handler → ℕ → ℕ → ℕ → Option ℕ
  unfolding at
  walk_down zero m start check cur = none
  walk_down (suc fuel) m start check cur = elim (check == 0) [
    | true ↦ some cur
    | false ↦
        walk_down fuel m start
          (if ltb start (at m check).mapping.start then (at m check).left else (at m check).right)
          check
  ]

  unfoldable pub link : MemoryMap Handler → ℕ → ℕ → ℕ → MemoryMap Handler
  unfolding at set_left set_right
  link m start cur new =
      if cur == 0
      then record m { root = new }
      else if ltb start (at m cur).mapping.start
      then set_left m cur new
      else set_right m cur new

  -- The return code and the new map; `none` if the fuel, one turn for each node, were not enough.
  unfoldable pub map_address_range :
      MemoryMap Handler → ℕ → ℕ → Handler → Option (ℕ × MemoryMap Handler)
  unfolding walk_down link fixup
  map_address_range m start length handler =
      if leb (num_nodes - 1) m.next_map_index
      then some (1, m)
      else (let new = m.next_map_index in
          let m1 = record m { next_map_index = new + 1 } in
          elim (walk_down num_nodes m1 start m1.root 0) [
            | none ↦ none
            | some cur ↦
                let m2 = link m1 start cur new in
                let node : Node Handler = record {
                  left = 0;
                  right = 0;
                  parent = cur;
                  mapping = record {
                    handler = handler;
                    length = length;
                    start = start;
                    last = sub32 (u32 (start + length)) 1;
                  };
                  red = true;
                } in
                elim (fixup num_nodes (record m2 { mappings = modify (λ _. node) new m2.mappings })
                  new) [ none ↦ none | some m3 ↦ some (0, m3) ]
          ])

  -- The search; `none` also if the fuel were not enough.
  unfoldable pub resolve_from : ℕ → MemoryMap Handler → ℕ → ℕ → Option (Mapping Handler)
  unfolding at
  resolve_from zero m address cur = none
  resolve_from (suc fuel) m address cur =
      let found = (at m cur).mapping in
      let next = if ltb address found.start then (at m cur).left else (at m cur).right in
      if leb found.start address && leb address found.last
      then some found
      else (elim (next == 0) [ true ↦ none | false ↦ resolve_from fuel m address next ])

  unfoldable pub resolve_mapped_address : MemoryMap Handler → ℕ → Option (Mapping Handler)
  resolve_mapped_address m address = resolve_from num_nodes m address m.root
