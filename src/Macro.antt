-- ===== src/Macro.antt =====
-- `statechart_impl` of hsmc-macros/src/lib.rs: the passes of the macro. A table that `generate` cannot
-- lay out is a panic.
pub mod Accepted
use Prim.Native.String.{String}
use hsmc.Codegen.Generate.{generate}
use hsmc.Input.{StatechartInput}
use hsmc.Lower.Bodies.{build_ir}
use hsmc.Lower.Resolve.{resolve_transitions}
use hsmc.Machine.{Chart}
use hsmc.Prelude.{ℕ, Option, none, some, List}
use hsmc.Parse.{parse}
use hsmc.Syn.{Syn, Tokens}
use hsmc.Refusal.{Result, accepted, refused, panicked, ◌>>=◌}
use hsmc.Validate.{validate, validate_parse_tree}

abbrev pub or_panic : Option Chart → Result Chart
or_panic none = refused panicked
or_panic (some chart) = accepted chart

-- The passes from the parsed tree on.
unfoldable pub expand : (String → List ℕ) → (String → ℕ) → StatechartInput → Result Chart
expand as_bytes value parsed = do
  tree ← validate_parse_tree parsed
  lowered ← build_ir parsed
  ir ← resolve_transitions lowered
  valid ← validate ir
  or_panic (generate as_bytes value ir)

unfoldable pub statechart_impl : Syn → (String → List ℕ) → (String → ℕ) → Tokens → Result Chart
unfolding parse expand
statechart_impl syn as_bytes value input = do parsed ← parse syn input; expand as_bytes value parsed
