-- ===== src/Lower.antt =====
-- hsmc-macros/src/ir.rs: the lowering of the parsed tree. The passes thread the IR that the source
-- mutates, and a state is written by its index.
pub mod Interning
pub mod Bodies
pub mod Resolve
use Prim.Native.String.{String}
use hsmc.Ir.{Ir, StateIr, as_u16}
use hsmc.Prelude.{
  ℕ, ◌+◌, Bool, Option, none, some, List, [], ◌∷◌, ◌++◌, if◌then◌else◌, length, get_elem?, set,
}
use hsmc.Refusal.{Result, accepted, refused, panicked}

-- `iter().position(..)`, counted from `i`
abbrev pub index_of {ℓ} : {A : Type ℓ} → (A → Bool) → ℕ → List A → Option ℕ
index_of p i [] = none
index_of p i (x ∷ xs) = let rest = index_of p (i + 1) xs in if p x then some i else rest

-- `ir.states[sid as usize].field = ..`
unfoldable pub edit_state : ℕ → (StateIr → StateIr) → Ir → Result Ir
edit_state sid f ir = elim (get_elem? ir.states sid) [
  | none ↦ refused panicked
  | some st ↦ accepted (record ir { states = set ir.states sid (f st) })
]

abbrev pub fresh_state : ℕ → String → Option ℕ → ℕ → StateIr
fresh_state id name parent depth = record {
  id = id;
  name = name;
  parent = parent;
  depth = depth;
  default_child = none;
  default_target_ident = none;
  entries = [];
  exits = [];
  handlers = [];
  children = [];
  owned_timers = [];
  durings = [];
}

-- The id of the state that is allocated is the number of states before, as a `u16`.
unfoldable pub alloc_state : String → Option ℕ → ℕ → Ir → Ir
alloc_state name parent depth ir = record ir {
  states = ir.states ++ fresh_state (as_u16 (length ir.states)) name parent depth ∷ [];
}
