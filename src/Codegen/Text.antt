-- ===== src/Codegen/Text.antt =====
-- hsmc-macros/src/codegen.rs: emit_state_chart_string and render_state, the text of STATE_CHART. An index
-- out of bounds, where the source panics, gives none.
pub mod Drawing
pub mod Own
pub mod Correct
pub mod Marks
pub mod Accepted
use Prim.Native.Char.{code}
use Prim.Native.String.{String, ◌++◌ as joined}
use hsmc.Input.{During}
use hsmc.Ir.{Ir, StateIr, HandlerIr, TriggerIr, HandlerKindIr}
use hsmc.Prelude.{
  ℕ, zero, suc, ◌+◌, ◌==◌, ltb, Bool, true, false, Option, none, some, ◌>>=◌, List, [], ◌∷◌,
  get_elem?, if◌then◌else◌,
}

-- `out.push_str(..)`, one after the other
abbrev pub push_all : String → List String → String
push_all out [] = out
push_all out (s ∷ rest) = push_all (joined out s) rest

-- The loop over the entries, and that over the exits.
abbrev pub render_actions : Ir → String → String → List ℕ → String → Option String
render_actions ir prefix label [] out = some out
render_actions ir prefix label (aid ∷ rest) out = do
  a ← get_elem? ir.actions aid
  render_actions ir prefix label rest (push_all out (prefix ∷ label ∷ a.name ∷ "\n" ∷ []))

-- The fields from the index `i` on.
abbrev pub render_fields : ℕ → List String → String → String
render_fields i [] out = out
render_fields i (f ∷ rest) out =
    render_fields (i + 1) rest (joined (if ltb 0 i then joined out ", " else out) f)

abbrev pub render_durings : String → List During → String → String
render_durings prefix [] out = out
render_durings prefix (d ∷ rest) out =
    let head = push_all out (prefix ∷ "• during: " ∷ d.fn_name ∷ "(" ∷ []) in
    render_durings prefix rest (joined (render_fields 0 d.fields head) ")\n")

-- `key.split(':').next()`, which is never none
unfoldable pub before_colon : String → String
before_colon String.[] = String.[]
before_colon (String.◌∷◌ c s) =
    let rest = before_colon s in if code c == 58 then String.[] else String.◌∷◌ c rest

abbrev pub trigger_text : Ir → TriggerIr → Option String
trigger_text ir (TriggerIr.event id name payload) = some (push_all "on(" (name ∷ ")" ∷ []))
trigger_text ir (TriggerIr.duration tid) = do
  d ← get_elem? ir.duration_triggers tid
  let verb = if d.repeat then "every" else "after"
  some (push_all "on(" (verb ∷ " " ∷ before_colon d.key ∷ ")" ∷ []))

abbrev pub target_text : HandlerKindIr → String
target_text (HandlerKindIr.transition target slot) = joined "→ " target
target_text (HandlerKindIr.action id name) = joined "⇒ " name

abbrev pub render_handlers : Ir → String → List HandlerIr → String → Option String
render_handlers ir prefix [] out = some out
render_handlers ir prefix (h ∷ rest) out = do
  trig ← trigger_text ir h.trigger
  render_handlers ir prefix rest
      (push_all out (prefix ∷ "• " ∷ trig ∷ " " ∷ target_text h.kind ∷ "\n" ∷ []))

-- `Some(*cid) == default_child`
abbrev pub is_default : ℕ → Option ℕ → Bool
is_default cid none = false
is_default cid (some d) = cid == d

abbrev pub is_last : List ℕ → Bool
is_last [] = true
is_last (c ∷ rest) = false

-- A loop over children; `draw` renders one.
abbrev pub render_children :
    (ℕ → Bool → Bool → String → Option String) → Option ℕ → List ℕ → String → Option String
render_children draw default_child [] out = some out
render_children draw default_child (cid ∷ rest) out = do
  drawn ← draw cid (is_last rest) (is_default cid default_child) out
  render_children draw default_child rest drawn

-- The part of `render_state` before the children.
abbrev pub render_own : Ir → StateIr → String → Bool → Bool → String → Option String
render_own ir s prefix last marked out = do
  let branch = push_all out (prefix ∷ (if last then "└── " else "├── ") ∷ [])
  let label = if marked then joined branch "[default] " else branch
  let named = push_all label (s.name ∷ "\n" ∷ [])
  let child_prefix = joined prefix (if last then "    " else "│   ")
  entered ← render_actions ir child_prefix "• entry: " s.entries named
  left ← render_actions ir child_prefix "• exit: " s.exits entered
  render_handlers ir child_prefix s.handlers (render_durings child_prefix s.durings left)

-- The fuel bounds how deep the recursion descends.
unfoldable pub render_state : ℕ → Ir → ℕ → String → Bool → Bool → String → Option String
render_state zero ir sid prefix last marked out = none
render_state (suc fuel) ir sid prefix last marked out = do
  s ← get_elem? ir.states sid
  let child_prefix = joined prefix (if last then "    " else "│   ")
  own ← render_own ir s prefix last marked out
  render_children (λ c l m o. render_state fuel ir c child_prefix l m o) s.default_child s.children
      own

unfoldable pub emit_state_chart_string : ℕ → Ir → Option String
emit_state_chart_string fuel ir = do
  root ← get_elem? ir.states 0
  render_children (λ c l m o. render_state fuel ir c "" l m o) root.default_child root.children
      (push_all "" (ir.name ∷ "\n" ∷ []))
