-- ===== src/Lower/Bodies/Keeps.antt =====
-- What passes of hsmc-macros/src/ir.rs leave alone; a write to a state does so if it keeps the frame.
pub mod Passes
use hsmc.Ir.{Ir, StateIr, HandlerIr, HandlerKindIr}
use hsmc.Lower.{edit_state}
use hsmc.Lower.Bodies.Forest.{frame, frames, frames-set}
use hsmc.Prelude.{
  ℕ, ◌≤◌, ◌≡◌, ◌∙◌, ap, sym, subst, refl, inl, inr, none, some, Option-cases, [], length, get_elem?,
  set, All, All-set, All-get_elem?, arith,
}
use hsmc.Refusal.{accepted}

-- No transition of a handler has its target's id yet.
abbrev pub IsOpenKind : HandlerKindIr → Type 0
IsOpenKind (HandlerKindIr.transition target slot) = slot ≡ none
IsOpenKind (HandlerKindIr.action id name) = Unit

abbrev pub IsOpenHandler : HandlerIr → Type 0
IsOpenHandler h = IsOpenKind h.kind

-- A state whose targets are still names.
abbrev pub IsOpen : StateIr → Type 0
IsOpen st = All IsOpenHandler st.handlers × (st.default_child ≡ none)

-- Without durations no state owns a timer.
abbrev pub IsTimed : Ir → Type 0
IsTimed ir =
    length ir.duration_triggers ≡ 0 → All (λ (st : StateIr). st.owned_timers ≡ []) ir.states

-- The states keep their frames, and their targets stay names.
pub record Keeps (ir ir' : Ir) : Type 0 where
  pub framed : frames ir'.states ≡ frames ir.states
  pub durations : length ir.duration_triggers ≤ length ir'.duration_triggers
  pub timed : IsTimed ir → IsTimed ir'
  pub open_states : All IsOpen ir.states → All IsOpen ir'.states

pub Keeps-trans : {a b c : Ir} → Keeps a b → Keeps b c → Keeps a c
Keeps-trans h k = record {
  framed = k.framed ∙ h.framed;
  durations = omega (arith, h.durations, k.durations);
  timed = λ t. k.timed (h.timed t);
  open_states = λ o. k.open_states (h.open_states o);
}

-- A pass that leaves the states and the durations alone.
pub Keeps-same :
    {ir ir' : Ir}
    → ir'.states ≡ ir.states
    → ir'.duration_triggers ≡ ir.duration_triggers
    → Keeps ir ir'
Keeps-same {ir} {ir'} s d = record {
  framed = ap frames s;
  durations = omega (arith, ap length d);
  timed = λ t none_left.
      subst (All (λ (st : StateIr). st.owned_timers ≡ [])) (sym s)
        (t (sym (ap length d) ∙ none_left));
  open_states = λ o. subst (All IsOpen) (sym s) o;
}

pub Keeps-refl : (ir : Ir) → Keeps ir ir
Keeps-refl ir = Keeps-same refl refl

pub edit_state-eq :
    (sid : ℕ) (f : StateIr → StateIr) (ir : Ir) {ir' : Ir}
    → edit_state sid f ir ≡ accepted ir'
    → (st : StateIr) × (get_elem? ir.states sid ≡ some st)
      × (record ir { states = set ir.states sid (f st) } ≡ ir')
unfolding edit_state
edit_state-eq sid f ir h = elim (Option-cases (get_elem? ir.states sid)) [
  | inl e ↦ ground arith
  | inr (st, e) ↦ (st, e, ground arith)
]

pub edit_state-Keeps :
    (sid : ℕ) (f : StateIr → StateIr) (ir : Ir) {ir' : Ir}
    → edit_state sid f ir ≡ accepted ir'
    → ((st : StateIr) → frame (f st) ≡ frame st)
    → ((st : StateIr) → IsOpen st → IsOpen (f st))
    → (length ir.duration_triggers ≡ 0
        → (st : StateIr) → st.owned_timers ≡ []
        → (f st).owned_timers ≡ [])
    → Keeps ir ir'
edit_state-Keeps sid f ir h still opens timers =
    let (st, at, same) = edit_state-eq sid f ir h in
    subst (Keeps ir) same (record {
      framed = frames-set ir.states sid st (f st) at (still st);
      durations = omega arith;
      timed = λ t zero_left.
          All-set (λ (s : StateIr). s.owned_timers ≡ []) ir.states sid (f st)
            (timers zero_left st (
              All-get_elem? (λ (s : StateIr). s.owned_timers ≡ []) ir.states sid st (t zero_left)
                at))
            (t zero_left);
      open_states = λ o.
          All-set IsOpen ir.states sid (f st)
            (opens st (All-get_elem? IsOpen ir.states sid st o at)) o;
    })
