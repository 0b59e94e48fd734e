-- ===== src/Codegen/Text/Drawing.antt =====
-- The lines that STATE_CHART of hsmc-macros/src/codegen.rs should have, from the parsed tree.
use Prim.Native.String.{String, ◌++◌ as joined}
use text.Mathlib.Text.{◌==◌ as str_eq}
use hsmc.Codegen.Text.{before_colon}
use hsmc.Input.{
  During, Trigger, Handler, Items, StateBody, StateDecls, StatechartInput, body, nil, cons,
}
use hsmc.Lower.Bodies.{has_name, collect_state_names}
use hsmc.Prelude.{Bool, true, false, Option, none, some, List, [], ◌∷◌, ◌++◌, map, if◌then◌else◌}

-- The parts of a line.
abbrev pub concat : List String → String
concat [] = ""
concat (s ∷ rest) = joined s (concat rest)

-- `out`, and the lines after it.
abbrev pub written : String → List String → String
written out [] = out
written out (l ∷ ls) = written (joined out (joined l "\n")) ls

abbrev pub action_line : String → String → String → String
action_line prefix label n = concat (prefix ∷ label ∷ n ∷ [])

abbrev pub comma_joined : List String → String
comma_joined [] = ""
comma_joined (f ∷ []) = f
comma_joined (f ∷ g ∷ rest) = joined f (joined ", " (comma_joined (g ∷ rest)))

abbrev pub during_line : String → During → String
during_line prefix d =
    concat (prefix ∷ "• during: " ∷ d.fn_name ∷ "(" ∷ comma_joined d.fields ∷ ")" ∷ [])

-- A duration is shown up to its first colon.
abbrev pub trigger_part : Trigger → String
trigger_part (Trigger.event v payload) = concat ("on(" ∷ v ∷ ")" ∷ [])
trigger_part (Trigger.duration e key repeat) =
    concat ("on(" ∷ (if repeat then "every" else "after") ∷ " " ∷ before_colon key ∷ ")" ∷ [])

abbrev pub handler_line : String → List String → Handler → String
handler_line prefix names h = concat (
    prefix
    ∷ "• "
    ∷ trigger_part h.trigger
    ∷ " "
    ∷ joined (if has_name h.target names then "→ " else "⇒ ") h.target
    ∷ [])

abbrev pub item_lines : String → List String → Items → List String
item_lines prefix names items =
    map (action_line prefix "• entry: ") items.entries
    ++ map (action_line prefix "• exit: ") items.exits
    ++ map (during_line prefix) items.durings
    ++ map (handler_line prefix names) items.handlers

abbrev pub head_line : String → Bool → Bool → String → String
head_line prefix last marked name =
    concat (
      prefix
      ∷ (if last then "└── " else "├── ")
      ∷ (if marked then "[default] " else "")
      ∷ name
      ∷ [])

abbrev pub indented : String → Bool → String
indented prefix last = joined prefix (if last then "    " else "│   ")

abbrev pub is_nil : StateDecls → Bool
is_nil nil = true
is_nil (cons name b rest) = false

abbrev pub is_named : String → Option String → Bool
is_named name none = false
is_named name (some n) = str_eq name n

-- A state, and the states that are declared in a body.
unfoldable mutual
  pub state_lines : String → List String → Bool → Bool → String → StateBody → List String
  state_lines prefix names last marked name (body items kids) =
      head_line prefix last marked name ∷ item_lines (indented prefix last) names items
      ++ child_lines (indented prefix last) names items.default_child kids

  pub child_lines : String → List String → Option String → StateDecls → List String
  child_lines prefix names default_child nil = []
  child_lines prefix names default_child (cons name b rest) =
      state_lines prefix names (is_nil rest) (is_named name default_child) name b
      ++ child_lines prefix names default_child rest

-- The name of the chart stands for the root, whose items are not shown.
abbrev pub root_lines : List String → StateBody → List String
root_lines names (body items kids) = child_lines "" names items.default_child kids

abbrev pub chart_lines : StatechartInput → List String
chart_lines input = input.name ∷ root_lines (input.name ∷ collect_state_names input.root) input.root
