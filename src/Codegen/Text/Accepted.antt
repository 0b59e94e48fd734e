-- ===== src/Codegen/Text/Accepted.antt =====
-- STATE_CHART of hsmc-macros/src/codegen.rs for a chart that the passes of hsmc-macros/src/lib.rs accept.
use hsmc.Codegen.Text.{emit_state_chart_string}
use hsmc.Codegen.Text.Correct.{MarksDefaults, emit_state_chart_string-lines}
use hsmc.Codegen.Text.Drawing.{is_named, written, chart_lines}
use hsmc.Codegen.Text.Marks.{AreOwn, named-AreOwn, settled-IsNamed, marked_by_name}
use hsmc.Input.{StatechartInput}
use hsmc.Ir.{Ir, StateIr}
use hsmc.Lower.Bodies.{build_ir}
use hsmc.Lower.Bodies.Correct.{build_ir-Grows, build_ir-IsTree}
use hsmc.Lower.Bodies.Grows.{nesting, state_count}
use hsmc.Lower.Bodies.Interned.{Fits, tables}
use hsmc.Lower.Bodies.Keeps.{IsOpen}
use hsmc.Lower.Bodies.Means.Whole.{build_ir-BodyMeans, build_ir-name}
use hsmc.Lower.Resolve.{resolve_transitions}
use hsmc.Lower.Resolve.Correct.{Bears, Settles, Both, resolve_transitions-Both}
use hsmc.Lower.Resolve.Means.{Both-at_back, resolve_transitions-BodyMeans}
use hsmc.Prelude.{ℕ, ◌+◌, ◌<◌, ◌≤◌, ◌≡◌, ◌∙◌, ap, sym, some, All-get_elem?, arith}
use hsmc.Refusal.{accepted}
use hsmc.Validate.{validate}
use hsmc.Validate.Correct.{AreDistinct, validate-IsValid}

-- The defaults that are found are marked by their names.
settled-MarksDefaults :
    (input : StatechartInput) (ir ir' : Ir)
    → nesting input.root < 256
    → 1 + state_count input.root ≤ 65536
    → AreOwn input
    → build_ir input ≡ accepted ir
    → ir.name ≡ input.name
    → Both (Settles (Bears ir)) ir.states ir'.states
    → AreDistinct ir'.states
    → MarksDefaults ir'.states
settled-MarksDefaults input ir ir' shallow few own h named both distinct s c st' ct' at_s' at_c'
      under' =
    let (tree, size, indexed, names) = build_ir-IsTree input ir shallow few h in
    let lowered = (build_ir-Grows input shallow few h).0 in
    let (st, at_s, e) = Both-at_back (Settles (Bears ir)) ir.states ir'.states s both at_s' in
    let (ct, at_c, f) = Both-at_back (Settles (Bears ir)) ir.states ir'.states c both at_c' in
    let under : ct.parent ≡ some s = sym (ap (λ (q : StateIr). q.parent) f.rest) ∙ under' in
    let called : ct'.name ≡ ct.name = ap (λ (q : StateIr). q.name) f.rest in
    let target = ap (λ (q : StateIr). q.default_target_ident) e.rest in
    let (unlike, other) = named-AreOwn input ir.states c s ct own names tree.top at_c under in
    let unset = (All-get_elem? IsOpen ir.states s st lowered.open_states at_s).1 in
    marked_by_name ir c s ct st.default_target_ident st.default_child st'.default_child
      (settled-IsNamed (Bears ir) ir.states ir'.states both distinct) at_c under other
      (λ q. unlike (q ∙ named)) unset e.default_found
    ∙ ap (is_named ct.name) (sym target)
    ∙ ap (λ n. is_named n st'.default_target_ident) (sym called)

-- For a chart that the lowering, the resolution and the validation accept, of at most 255 levels, whose
-- ids fit a `u16`, and no state of which goes by the name of the chart or `__Root`, STATE_CHART is the
-- drawing of the parsed tree: the name of the chart, then a line for every declared state and for every
-- item of it, in the order of the source, indented by its ancestors, with the default of a state marked.
-- A duration is cut at its first colon.
pub emit_state_chart_string-draws :
    (input : StatechartInput) (lowered ir : Ir) (fuel : ℕ)
    → nesting input.root < 256
    → 1 + state_count input.root ≤ 65536
    → Fits (tables lowered)
    → AreOwn input
    → build_ir input ≡ accepted lowered
    → resolve_transitions lowered ≡ accepted ir
    → validate ir ≡ accepted tt
    → nesting input.root ≤ fuel
    → emit_state_chart_string fuel ir ≡ some (written "" (chart_lines input))
emit_state_chart_string-draws input lowered ir fuel shallow few fits own h r v enough =
    let (tree, size, indexed, names) = build_ir-IsTree input lowered shallow few h in
    let (kept, both) = resolve_transitions-Both lowered ir indexed r in
    let (graph, distinct, valid) = validate-IsValid ir v in
    let called = build_ir-name input lowered (omega (arith, size)) h in
    emit_state_chart_string-lines fuel input ir enough (ap (λ (q : Ir). q.name) kept ∙ called)
      (settled-MarksDefaults input lowered ir shallow few own h called both distinct)
      (resolve_transitions-BodyMeans lowered ir _ 0 input.root indexed r
        (build_ir-BodyMeans input lowered (omega (arith, size)) fits h))
