-- ===== src/Lower/Bodies/Keeps/Passes.antt =====
-- The passes over the items of a body of hsmc-macros/src/ir.rs, from the interning to `lower_items`.
use Prim.Native.String.{String}
use hsmc.Input.{EventPayload, PayloadField, PayloadKind, Trigger, Handler, Items}
use hsmc.Ir.{Ir, DurationTrigger, as_u16, StateIr, HandlerIr, HandlerKindIr, TriggerIr}
use hsmc.Lower.{edit_state}
use hsmc.Lower.Interning.{
  intern_action_unit, intern_action_with_params, intern_event, intern_duration, find_duration,
  full_key,
}
use hsmc.Lower.Bodies.{
  classify_target, intern_all, intern_handler, lower_trigger, lower_handlers, lower_items,
  own_timer, check_every, check_payload, has_name,
}
use hsmc.Prelude.{
  ℕ, ◌≤◌, ◌+◌, ◌≡◌, subst, refl, Bool, Bool-cases, inl, inr, Option, none, some, Option-cases, List,
  [], ◌∷◌, ◌++◌, length, length-append, All, arith,
}
use hsmc.Refusal.{accepted, >>=-eq-accepted}
use hsmc.Lower.Bodies.Keeps.{
  IsOpenKind, IsOpenHandler, Keeps, Keeps-trans, Keeps-same, Keeps-refl, edit_state-Keeps,
}

intern_action_unit-Keeps :
    (i : String) (ir : Ir) {ir' : Ir} {p : ℕ}
    → intern_action_unit i ir ≡ accepted (ir', p)
    → Keeps ir ir'
unfolding intern_action_unit
intern_action_unit-Keeps i ir h = Keeps-same (ground arith) (ground arith)

intern_action_with_params-Keeps :
    (i : String) (params : List PayloadField) (variant : String) (kind : PayloadKind) (ir : Ir)
    {ir' : Ir} {p : ℕ}
    → intern_action_with_params i params variant kind ir ≡ accepted (ir', p)
    → Keeps ir ir'
unfolding intern_action_with_params
intern_action_with_params-Keeps i params variant kind ir h =
    Keeps-same (ground arith) (ground arith)

pub intern_event-Keeps :
    (i : String) (payload : Option EventPayload) (ir : Ir) {ir' : Ir} {p : ℕ}
    → intern_event i payload ir ≡ accepted (ir', p)
    → Keeps ir ir'
unfolding intern_event
intern_event-Keeps i payload ir h = Keeps-same (ground arith) (ground arith)

intern_handler-Keeps :
    (target : String) (trig : TriggerIr) (ir : Ir) {r : Ir × ℕ}
    → intern_handler target trig ir ≡ accepted r
    → Keeps ir r.0
intern_handler-Keeps target (TriggerIr.event id variant (some payload)) ir h =
    intern_action_with_params-Keeps target payload.fields variant payload.kind ir h
intern_handler-Keeps target (TriggerIr.event id variant none) ir h =
    intern_action_unit-Keeps target ir h
intern_handler-Keeps target (TriggerIr.duration id) ir h = intern_action_unit-Keeps target ir h

-- A handler's target is classified: the states are kept, and a transition has no id.
classify_target-Keeps :
    (names : List String) (target : String) (trig : TriggerIr) (ir : Ir) {r : Ir × HandlerKindIr}
    → classify_target names target trig ir ≡ accepted r
    → Keeps ir r.0 × IsOpenKind r.1
unfolding classify_target
classify_target-Keeps names target trig ir {r} h = elim (Bool-cases (has_name target names)) [
  | inl state ↦
      let (u, once, h1) = >>=-eq-accepted (check_every target trig ir) _ (rw state at h) in
      let (v, bare, h2) = >>=-eq-accepted (check_payload trig) _ h1 in
      let same : (ir, HandlerKindIr.transition target none) ≡ r = cc in
      subst (λ (q : Ir × HandlerKindIr). Keeps ir q.0 × IsOpenKind q.1) same (Keeps-refl ir, refl)
  | inr handler ↦
      let (q, run, h1) = >>=-eq-accepted (intern_handler target trig ir) _ (rw handler at h) in
      let same : (q.0, HandlerKindIr.action q.1 target) ≡ r = cc in
      subst (λ (p : Ir × HandlerKindIr). Keeps ir p.0 × IsOpenKind p.1) same
        (intern_handler-Keeps target trig ir run, tt)
]

intern_all-Keeps :
    (is : List String) (ir : Ir) {r : Ir × List ℕ} → intern_all is ir ≡ accepted r → Keeps ir r.0
unfolding intern_all
intern_all-Keeps [] ir {r} h =
    let same : (ir, []) ≡ r = cc in subst (λ (q : Ir × List ℕ). Keeps ir q.0) same (Keeps-refl ir)
intern_all-Keeps (i ∷ rest) ir {r} h =
    let (q, one, h1) = >>=-eq-accepted (intern_action_unit i ir) _ h in
    let (more, all, h2) = >>=-eq-accepted (intern_all rest q.0) _ h1 in
    let same : (more.0, q.1 ∷ more.1) ≡ r = cc in
    subst (λ (p : Ir × List ℕ). Keeps ir p.0) same
      (Keeps-trans (intern_action_unit-Keeps i ir one) (intern_all-Keeps rest q.0 all))

found_duration :
    (key : String) (ds : List DurationTrigger) {id : ℕ}
    → find_duration key ds ≡ some id
    → 1 ≤ length ds
found_duration key [] h = cc
found_duration key (d ∷ ds) h = omega arith

-- A duration that is interned is there.
intern_duration-Keeps :
    (expr key : String) (repeat : Bool) (ir : Ir)
    → Keeps ir (intern_duration expr key repeat ir).0
      × (1 ≤ length (intern_duration expr key repeat ir).0.duration_triggers)
unfolding intern_duration
intern_duration-Keeps expr key repeat ir =
    elim (Option-cases (find_duration (full_key key repeat) ir.duration_triggers)) [
      | inr (id, e) ↦
          rw (e, intern_duration)
            (Keeps-refl ir, found_duration (full_key key repeat) ir.duration_triggers e)
      | inl e ↦
          rw (e, intern_duration)
            (let new : DurationTrigger = record {
              id = as_u16 (length ir.duration_triggers);
              key = full_key key repeat;
              expr = expr;
              repeat = repeat;
            } in
              let longer : length (ir.duration_triggers ++ new ∷ [])
                  ≡ length ir.duration_triggers + 1 =
                length-append ir.duration_triggers (new ∷ []) in
              (
                record {
                  framed = refl;
                  durations = omega (arith, longer);
                  timed = λ t none_left. absurd (omega (arith, longer, none_left));
                  open_states = λ o. o;
                },
                omega (arith, longer),
              ))
    ]

lower_trigger-Keeps :
    (sid : ℕ) (t : Trigger) (ir : Ir) {r : Ir × TriggerIr}
    → lower_trigger sid t ir ≡ accepted r
    → Keeps ir r.0
lower_trigger-Keeps sid (Trigger.event variant payload) ir {r} h =
    let (q, one, h1) = >>=-eq-accepted (intern_event variant payload ir) _ h in
    let same : (q.0, TriggerIr.event q.1 variant payload) ≡ r = cc in
    subst (λ (p : Ir × TriggerIr). Keeps ir p.0) same (intern_event-Keeps variant payload ir one)
lower_trigger-Keeps sid (Trigger.duration expr key repeat) ir {r} h =
    let d = intern_duration expr key repeat ir in
    let (keeps, some_left) = intern_duration-Keeps expr key repeat ir in
    let (ir', edited, h1) = >>=-eq-accepted (edit_state sid (own_timer d.1) d.0) _ h in
    let same : (ir', TriggerIr.duration d.1) ≡ r = cc in
    subst (λ (p : Ir × TriggerIr). Keeps ir p.0) same
      (Keeps-trans keeps (
        edit_state-Keeps sid (own_timer d.1) d.0 edited (λ st. refl) (λ st o. o)
          (λ zero_left. absurd (omega arith))))

lower_handlers-Keeps :
    (names : List String) (sid : ℕ) (hs : List Handler) (ir : Ir) {r : Ir × List HandlerIr}
    → lower_handlers names sid hs ir ≡ accepted r
    → Keeps ir r.0 × All IsOpenHandler r.1
unfolding lower_handlers
lower_handlers-Keeps names sid [] ir {r} h =
    let same : (ir, []) ≡ r = cc in
    subst (λ (q : Ir × List HandlerIr). Keeps ir q.0 × All IsOpenHandler q.1) same
      (Keeps-refl ir, tt)
lower_handlers-Keeps names sid (hd ∷ rest) ir {r} h =
    let (t, one, h1) = >>=-eq-accepted (lower_trigger sid hd.trigger ir) _ h in
    let (k, two, h2) = >>=-eq-accepted (classify_target names hd.target t.1 t.0) _ h1 in
    let (more, all, h3) = >>=-eq-accepted (lower_handlers names sid rest k.0) _ h2 in
    let (keeps, open_kind) = classify_target-Keeps names hd.target t.1 t.0 two in
    let (keeps', open_rest) = lower_handlers-Keeps names sid rest k.0 all in
    let same : (more.0, record { trigger = t.1; kind = k.1; decl_index = hd.decl_index } ∷ more.1)
        ≡ r =
      cc in
    subst (λ (q : Ir × List HandlerIr). Keeps ir q.0 × All IsOpenHandler q.1) same
      (
        Keeps-trans (lower_trigger-Keeps sid hd.trigger ir one) (Keeps-trans keeps keeps'),
        (open_kind, open_rest),
      )

-- The part of `lower_body` before the children.
pub lower_items-Keeps :
    (names : List String) (sid : ℕ) (items : Items) (ir : Ir) {ir' : Ir}
    → lower_items names sid items ir ≡ accepted ir'
    → Keeps ir ir'
unfolding lower_items
lower_items-Keeps names sid items ir h =
    let (a, entries, h1) = >>=-eq-accepted (intern_all items.entries ir) _ h in
    let (b, exits, h2) = >>=-eq-accepted (intern_all items.exits a.0) _ h1 in
    let (c, written, h3) =
      >>=-eq-accepted
        (edit_state sid (λ (st : StateIr). record st { entries = a.1; exits = b.1 }) b.0) _ h2 in
    let (d, handlers, h4) = >>=-eq-accepted (lower_handlers names sid items.handlers c) _ h3 in
    let (keeps, opened) = lower_handlers-Keeps names sid items.handlers c handlers in
    Keeps-trans (intern_all-Keeps items.entries ir entries) (
      Keeps-trans (intern_all-Keeps items.exits a.0 exits) (
        Keeps-trans
          (edit_state-Keeps sid (λ (st : StateIr). record st { entries = a.1; exits = b.1 }) b.0
            written (λ st. refl) (λ st o. o) (λ z st o. o))
          (Keeps-trans keeps (
            edit_state-Keeps sid
              (λ (st : StateIr). record st { handlers = d.1; durings = items.durings }) d.0 h4
              (λ st. refl) (λ st o. (opened, o.1)) (λ z st o. o)))))
