-- ===== src/Examples.antt =====
-- A chart with four states, its tables, and containers that meet the laws; the theorems about
-- hsmc-macros/src/codegen.rs and hsmc/src/lib.rs are applied to them in the modules below.
pub mod Charts
pub mod Timers
pub mod Queues
pub mod Tokens
pub mod Lowering
use Prim.Native.String.{String}
use hsmc.Heapless.{Deque, HeaplessVec}
use hsmc.Ir.{HandlerIr, event, duration, action, transition, StateIr, parent_of, depth_of}
use hsmc.Prelude.{
  ◌≤◌, ℕ, ◌<◌, ◌≡◌, refl, Bool, Option, none, some, List, [], ◌∷◌, ◌++◌, ltb, if◌then◌else◌, length,
  get_elem?, set, init, last_or, arith, some_case,
}

abbrev state : ℕ → String → Option ℕ → ℕ → Option ℕ → List ℕ → List ℕ → List HandlerIr → StateIr
state id name parent depth default_child children timers handlers = record {
  id = id;
  name = name;
  parent = parent;
  depth = depth;
  default_child = default_child;
  default_target_ident = none;
  entries = [];
  exits = [];
  handlers = handlers;
  children = children;
  owned_timers = timers;
  durings = [];
}

-- `on Back` in the root calls an action; `on Go` leads from 1 to 2; the timer of 1 leads to 3.
abbrev on_back : HandlerIr
on_back = record { trigger = event 1 "Back" none; kind = action 0 "note"; decl_index = 0 }

abbrev on_go : HandlerIr
on_go = record { trigger = event 0 "Go" none; kind = transition "Open" (some 2); decl_index = 1 }

abbrev after : HandlerIr
after = record { trigger = duration 0; kind = transition "Lit" (some 3); decl_index = 0 }

-- The root descends to 1; 2 descends to its child 3.
abbrev pub states : List StateIr
states =
    state 0 "Door" none 0 (some 1) (1 ∷ 2 ∷ []) [] (on_back ∷ [])
    ∷ state 1 "Shut" (some 0) 1 none [] (0 ∷ []) (on_go ∷ after ∷ [])
    ∷ state 2 "Open" (some 0) 1 (some 3) (3 ∷ []) [] []
    ∷ state 3 "Lit" (some 2) 2 none [] [] []
    ∷ []

abbrev pub parent : ℕ → Option ℕ
parent = parent_of states

abbrev pub depth : ℕ → ℕ
depth = depth_of states

-- A vector and a queue that are their slices.
abbrev removed : {A : Type 0} → List A → ℕ → Option (A × List A)
removed xs i = elim (get_elem? xs i) [
  | none ↦ none
  | some a ↦ some (a, set (init xs) i (last_or a xs))
]

abbrev kept : {A : Type 0} → (A → Bool) → List A → List A
kept keep [] = []
kept keep (a ∷ xs) = let rest = kept keep xs in if keep a then a ∷ rest else rest

abbrev pushed : {A : Type 0} → ℕ → List A → A → Option (List A)
pushed cap xs a = if ltb (length xs) cap then some (xs ++ a ∷ []) else none

abbrev first : {A : Type 0} → List A → Option (A × List A)
first [] = none
first (a ∷ xs) = some (a, xs)

pub pushed_room :
    {A : Type 0} (cap : ℕ) (xs : List A) (a : A)
    → length xs < cap
    → pushed cap xs a ≡ some (xs ++ a ∷ [])
pushed_room cap xs a h = ground arith

pub pushed_full :
    {A : Type 0} (cap : ℕ) (xs : List A) (a : A) → cap ≤ length xs → pushed cap xs a ≡ none
pushed_full cap xs a h = ground arith

pub swapped :
    {A : Type 0} (xs : List A) (i : ℕ) (a : A)
    → get_elem? xs i ≡ some a
    → removed xs i ≡ some (a, set (init xs) i (last_or a xs))
swapped xs i a h =
    some_case (get_elem? xs i) (λ o. o ≡ some (a, set (init xs) i (last_or a xs))) _ _ a h refl

abbrev pub list_vec : {A : Type 0} → HeaplessVec A
list_vec = record {
  push = pushed;
  retain = kept;
  swap_remove = removed;
  push_room = pushed_room;
  push_full = pushed_full;
  retain_nil = λ keep. refl;
  retain_cons = λ keep a xs. refl;
  swap_removed = swapped;
}

abbrev pub list_deque : {E : Type 0} → Deque E
list_deque = record {
  push_back = pushed;
  pop_front = first;
  push_room = pushed_room;
  push_full = pushed_full;
  pop_empty = refl;
  pop_first = λ e xs. refl;
}
