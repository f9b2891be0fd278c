-- ===== src/Bus/Intervals.antt =====
-- The search of bus/memorymap.c and the first range of a table, run on a whole interval of addresses
-- at once. A run gives an answer if every address of the interval takes the same way.
use mathlib.Core.Option
use cen.Base.{
  get_or, ap, ==_iff, sym, ◌∙◌, List, [], ◌∷◌, ℕ, zero, suc, ◌+◌, ◌≤◌, ◌<◌, ◌≡◌, refl, Bool, true,
  false, Option, none, some, ltb, leb, ◌==◌, ◌&&◌, if◌then◌else◌, arith,
}
use cen.Bus.{Handler, BusMapping, Target, rdram, unmapped, handled, bus_target, open_bus}
use cen.Bus.Numbers.{number, by_number, number_lem}
use cen.Bus.Map.{Mapping, MemoryMap, at, num_nodes, resolve_from, resolve_mapped_address}

-- The first range of a table that holds an address.
unfoldable pub first_range : List BusMapping → ℕ → Target
first_range [] address = unmapped
first_range (b ∷ rest) address =
    if leb b.address address && ltb address (b.address + b.length)
    then handled b.handler
    else first_range rest address

-- Where an interval lies against a range from `start` up to `stop`.
pub data Place : Type 0 where
  before inside after across : Place

unfoldable pub place : ℕ → ℕ → ℕ → ℕ → Place
place lo hi start stop =
    if leb hi start
    then before
    else if leb stop lo
    then after
    else if leb start lo
    then (if leb hi stop then inside else across)
    else across

-- What a place says of the addresses of the interval.
Placed : Place → ℕ → ℕ → ℕ → Type 0
Placed before address start stop = address < start
Placed inside address start stop = (start ≤ address) × (address < stop)
Placed after address start stop = stop ≤ address
Placed across address start stop = Unit

place-Placed :
    (lo hi start stop address : ℕ)
    → lo ≤ address
    → address < hi
    → Placed (place lo hi start stop) address start stop
unfolding place Placed
place-Placed lo hi start stop address above below = ground arith

unfoldable pub first_range_on : List BusMapping → ℕ → ℕ → Option Target
first_range_on [] lo hi = some unmapped
first_range_on (b ∷ rest) lo hi = elim (place lo hi b.address (b.address + b.length)) [
  | before ↦ first_range_on rest lo hi
  | inside ↦ some (handled b.handler)
  | after ↦ first_range_on rest lo hi
  | across ↦ none
]

first_range-step :
    (b : BusMapping) (rest : List BusMapping) (lo hi address : ℕ) (t : Target) (p : Place)
    → place lo hi b.address (b.address + b.length) ≡ p
    → Placed p address b.address (b.address + b.length)
    → (first_range_on rest lo hi ≡ some t → first_range rest address ≡ t)
    → first_range_on (b ∷ rest) lo hi ≡ some t
    → first_range (b ∷ rest) address ≡ t
unfolding first_range first_range_on Placed
first_range-step b rest lo hi address t before q h ih e = ground (arith, ih)
first_range-step b rest lo hi address t inside q h ih e = ground arith
first_range-step b rest lo hi address t after q h ih e = ground (arith, ih)
first_range-step b rest lo hi address t across q h ih e = absurd (ground arith)

pub first_range_on_lem :
    (table : List BusMapping) (lo hi address : ℕ) (t : Target)
    → lo ≤ address
    → address < hi
    → first_range_on table lo hi ≡ some t
    → first_range table address ≡ t
unfolding first_range first_range_on
first_range_on_lem [] lo hi address t above below e = ground arith
first_range_on_lem (b ∷ rest) lo hi address t above below e =
    first_range-step b rest lo hi address t _ refl
      (place-Placed lo hi b.address (b.address + b.length) address above below)
      (first_range_on_lem rest lo hi address t above below) e

unfoldable pub resolve_on : ℕ → MemoryMap Handler → ℕ → ℕ → ℕ → Option (Option (Mapping Handler))
resolve_on zero m lo hi cur = none
resolve_on (suc fuel) m lo hi cur =
    let node = at open_bus m cur in
    elim (place lo hi node.mapping.start (node.mapping.last + 1)) [
      | before ↦ elim (node.left == 0) [
        | true ↦ some none
        | false ↦ resolve_on fuel m lo hi node.left
      ]
      | inside ↦ some (some node.mapping)
      | after ↦ elim (ltb lo node.mapping.start) [
        | true ↦ none
        | false ↦ elim (node.right == 0) [
          | true ↦ some none
          | false ↦ resolve_on fuel m lo hi node.right
        ]
      ]
      | across ↦ none
    ]

resolve-step :
    (fuel : ℕ) (m : MemoryMap Handler) (lo hi address cur : ℕ) (found : Option (Mapping Handler))
    (p : Place)
    → place lo hi (at open_bus m cur).mapping.start ((at open_bus m cur).mapping.last + 1) ≡ p
    → Placed p address (at open_bus m cur).mapping.start ((at open_bus m cur).mapping.last + 1)
    → lo ≤ address
    → ((next : ℕ)
        → resolve_on fuel m lo hi next ≡ some found
        → resolve_from open_bus fuel m address next ≡ found)
    → resolve_on (suc fuel) m lo hi cur ≡ some found
    → resolve_from open_bus (suc fuel) m address cur ≡ found
unfolding resolve_on resolve_from Placed
resolve-step fuel m lo hi address cur found before q h above ih e =
    ground (arith, ih (at open_bus m cur).left)
resolve-step fuel m lo hi address cur found inside q h above ih e = ground arith
resolve-step fuel m lo hi address cur found after q h above ih e =
    ground (arith, ih (at open_bus m cur).right)
resolve-step fuel m lo hi address cur found across q h above ih e = absurd (ground arith)

pub resolve_on_lem :
    (fuel : ℕ) (m : MemoryMap Handler) (lo hi address cur : ℕ) (found : Option (Mapping Handler))
    → lo ≤ address
    → address < hi
    → resolve_on fuel m lo hi cur ≡ some found
    → resolve_from open_bus fuel m address cur ≡ found
unfolding resolve_on
resolve_on_lem zero m lo hi address cur found above below e = absurd (ground arith)
resolve_on_lem (suc fuel) m lo hi address cur found above below e =
    let node = at open_bus m cur in
    resolve-step fuel m lo hi address cur found _ refl
      (place-Placed lo hi node.mapping.start (node.mapping.last + 1) address above below) above
      (λ next. resolve_on_lem fuel m lo hi address next found above below) e

abbrev target_of : Option (Mapping Handler) → Target
target_of none = unmapped
target_of (some found) = handled found.handler

-- What an address reaches by a table: RDRAM below 8 MB, and above the first range that holds it.
unfoldable pub table_target : List BusMapping → ℕ → Target
table_target table address = if ltb address 0x00800000 then rdram else first_range table address

-- The answer of the tree, and of the table, on an interval.
unfoldable pub tree_on : MemoryMap Handler → ℕ → ℕ → Option Target
tree_on m lo hi =
    if leb hi 0x00800000
    then some rdram
    else if leb 0x00800000 lo
    then Option.map target_of (resolve_on num_nodes m lo hi m.root)
    else none

unfoldable pub table_on : List BusMapping → ℕ → ℕ → Option Target
table_on table lo hi =
    if leb hi 0x00800000
    then some rdram
    else if leb 0x00800000 lo
    then first_range_on table lo hi
    else none

target-cases :
    (m : MemoryMap Handler) (lo hi address : ℕ) (t : Target) (q : Option (Option (Mapping Handler)))
    → lo ≤ address
    → address < hi
    → ((found : Option (Mapping Handler))
        → q ≡ some found
        → resolve_mapped_address open_bus m address ≡ found)
    → (if leb hi 0x00800000
        then some rdram
        else if leb 0x00800000 lo
        then Option.map target_of q
        else none)
      ≡ some t
    → bus_target m address ≡ t
unfolding bus_target
target-cases m lo hi address t none above below h e = ground arith
target-cases m lo hi address t (some none) above below h e = ground (arith, h none refl)
target-cases m lo hi address t (some (some found)) above below h e =
    ground (arith, h (some found) refl)

tree_on_lem :
    (m : MemoryMap Handler) (lo hi address : ℕ) (t : Target)
    → lo ≤ address
    → address < hi
    → tree_on m lo hi ≡ some t
    → bus_target m address ≡ t
unfolding tree_on resolve_mapped_address
tree_on_lem m lo hi address t above below e =
    target-cases m lo hi address t (resolve_on num_nodes m lo hi m.root) above below
      (λ found. resolve_on_lem num_nodes m lo hi address m.root found above below) e

table_on_lem :
    (table : List BusMapping) (lo hi address : ℕ) (t : Target)
    → lo ≤ address
    → address < hi
    → table_on table lo hi ≡ some t
    → table_target table address ≡ t
unfolding table_on table_target
table_on_lem table lo hi address t above below e =
    ground (arith, first_range_on_lem table lo hi address t above below)

-- Both have an answer, and it is one.
unfoldable pub same_answer : Option Target → Option Target → Bool
unfolding number
same_answer none _ = false
same_answer (some t) none = false
same_answer (some t) (some t') = number t == number t'

pub on_interval :
    (m : MemoryMap Handler) (table : List BusMapping) (lo hi address : ℕ)
    → lo ≤ address
    → address < hi
    → same_answer (tree_on m lo hi) (table_on table lo hi) ≡ true
    → bus_target m address ≡ table_target table address
unfolding same_answer
on_interval m table lo hi address above below e =
    go (tree_on m lo hi) (table_on table lo hi) refl refl e
  where
    go :
        (p q : Option Target)
        → tree_on m lo hi ≡ p
        → table_on table lo hi ≡ q
        → same_answer p q ≡ true
        → bus_target m address ≡ table_target table address
    go none q e e' same = absurd (ground arith)
    go (some t) none e e' same = absurd (ground arith)
    go (some t) (some t') e e' same =
        tree_on_lem m lo hi address t above below e
        ∙ sym (number_lem t)
        ∙ ap (λ (n : ℕ). get_or by_number n unmapped) ((==_iff _ _).0 same)
        ∙ number_lem t'
        ∙ sym (table_on_lem table lo hi address t' above below e')
