-- ===== src/Lower/Bodies/Means/Handlers.antt =====
-- `lower_handlers` of hsmc-macros/src/ir.rs: what it makes stands for the handlers.
use Prim.Native.String.{String}
use hsmc.Input.{Trigger, Handler}
use hsmc.Ir.{Ir, StateIr, HandlerIr, TriggerIr}
use hsmc.Lower.{edit_state}
use hsmc.Lower.Bodies.{classify_target, lower_trigger, lower_handlers, own_timer}
use hsmc.Lower.Bodies.Interned.{
  tables, Fits, Extends, Extends-refl, Extends-trans, Extends-Fits, IsIndexed,
}
use hsmc.Lower.Bodies.Interned.Events.{intern_event-IsInterned}
use hsmc.Lower.Bodies.Interned.Durations.{intern_duration-IsTimer}
use hsmc.Lower.Bodies.Keeps.{edit_state-eq}
use hsmc.Lower.Bodies.Means.{TriggerMeans, HandlersMean, TriggerMeans-Extends, KindMeans-Extends}
use hsmc.Lower.Interning.{intern_event, intern_duration}
use hsmc.Prelude.{ℕ, ◌≡◌, ◌∙◌, ap, sym, subst, refl, some, List, [], ◌∷◌, get_elem?}
use hsmc.Refusal.{accepted, >>=-eq-accepted}
use hsmc.Lower.Bodies.Means.Passes.{
  Pass, Pass-trans, Pass-same, edit_state-Pass, classify_target-IsKind,
}

-- Only the timers of a state change.
abbrev Kept : StateIr → StateIr → Type 0
Kept st now = now ≡ record st { owned_timers = now.owned_timers }

Kept-trans : (a b c : StateIr) → Kept a b → Kept b c → Kept a c
Kept-trans a b c h k = k ∙ ap (λ (s : StateIr). record s { owned_timers = c.owned_timers }) h

-- A pass that keeps the state `sid` but for its timers.
pub record KeepsState (sid : ℕ) (ir : Ir) (st : StateIr) (ir' : Ir) : Type 0 where
  pub pass : Pass sid ir ir'
  pub now : StateIr
  pub at : get_elem? ir'.states sid ≡ some now
  pub kept : Kept st now

KeepsState-same :
    (sid : ℕ) (ir ir' : Ir) (st : StateIr)
    → Extends (tables ir) (tables ir')
    → ir'.states ≡ ir.states
    → get_elem? ir.states sid ≡ some st
    → KeepsState sid ir st ir'
KeepsState-same sid ir ir' st g s at = record {
  pass = Pass-same g s;
  now = st;
  at = ap (λ l. get_elem? l sid) s ∙ at;
  kept = refl;
}

KeepsState-trans :
    {sid : ℕ} {a b c : Ir} {st : StateIr}
    → (h : KeepsState sid a st b) → KeepsState sid b h.now c
    → KeepsState sid a st c
KeepsState-trans {st = st} h k = record {
  pass = Pass-trans h.pass k.pass;
  now = k.now;
  at = k.at;
  kept = Kept-trans st h.now k.now h.kept k.kept;
}

lower_trigger-Means :
    (sid : ℕ) (t : Trigger) (ir : Ir) (st : StateIr) {r : Ir × TriggerIr}
    → get_elem? ir.states sid ≡ some st
    → lower_trigger sid t ir ≡ accepted r
    → KeepsState sid ir st r.0
      × (Fits (tables r.0) → IsIndexed r.0.duration_triggers → TriggerMeans (tables r.0) t r.1)
lower_trigger-Means sid (Trigger.event v payload) ir st {r} at h =
    let (q, one, h1) = >>=-eq-accepted (intern_event v payload ir) _ h in
    let same : (q.0, TriggerIr.event q.1 v payload) ≡ r = cc in
    let interned = intern_event-IsInterned v payload ir one in
    subst
      (λ (p : Ir × TriggerIr).
        KeepsState sid ir st p.0
        × (Fits (tables p.0)
            → IsIndexed p.0.duration_triggers
            → TriggerMeans (tables p.0) (Trigger.event v payload) p.1))
      same
      (
        KeepsState-same sid ir q.0 st interned.grown interned.same_states at,
        λ fits indexed. (interned.stands fits, refl, refl),
      )
lower_trigger-Means sid (Trigger.duration e key repeat) ir st {r} at h =
    let d = intern_duration e key repeat ir in
    let timed = intern_duration-IsTimer e key repeat ir in
    let (ir', edited, h1) = >>=-eq-accepted (edit_state sid (own_timer d.1) d.0) _ h in
    let there : get_elem? d.0.states sid ≡ some st =
      ap (λ l. get_elem? l sid) timed.same_states ∙ at in
    let (pass, now) = edit_state-Pass sid (own_timer d.1) d.0 edited there in
    let (old, here, written) = edit_state-eq sid (own_timer d.1) d.0 edited in
    let same : (ir', TriggerIr.duration d.1) ≡ r = cc in
    let same_tables : tables ir' ≡ tables d.0 = ap tables (sym written) in
    let same_durations : ir'.duration_triggers ≡ d.0.duration_triggers =
      ap (λ (q : Ir). q.duration_triggers) (sym written) in
    subst
      (λ (p : Ir × TriggerIr).
        KeepsState sid ir st p.0
        × (Fits (tables p.0)
            → IsIndexed p.0.duration_triggers
            → TriggerMeans (tables p.0) (Trigger.duration e key repeat) p.1))
      same
      (
        record {
          pass = Pass-trans (Pass-same timed.grown timed.same_states) pass;
          now = own_timer d.1 st;
          at = now;
          kept = refl;
        },
        λ fits indexed.
            let (x, found, keyed, mode) =
              timed.stands (subst Fits same_tables fits) (subst IsIndexed same_durations indexed) in
            (x, ap (λ l. get_elem? l d.1) same_durations ∙ found, keyed, mode),
      )

pub lower_handlers-Means :
    (names : List String) (sid : ℕ) (hs : List Handler) (ir : Ir) (st : StateIr)
    {r : Ir × List HandlerIr}
    → get_elem? ir.states sid ≡ some st
    → lower_handlers names sid hs ir ≡ accepted r
    → KeepsState sid ir st r.0
      × (Fits (tables r.0)
          → IsIndexed ir.duration_triggers
          → HandlersMean (tables r.0) names hs r.1)
unfolding lower_handlers
lower_handlers-Means names sid [] ir st {r} at h =
    let same : (ir, []) ≡ r = cc in
    subst
      (λ (q : Ir × List HandlerIr).
        KeepsState sid ir st q.0
        × (Fits (tables q.0)
            → IsIndexed ir.duration_triggers
            → HandlersMean (tables q.0) names [] q.1))
      same (KeepsState-same sid ir ir st (Extends-refl (tables ir)) refl at, λ fits indexed. tt)
lower_handlers-Means names sid (hd ∷ rest) ir st {r} at h =
    let (t, one, h1) = >>=-eq-accepted (lower_trigger sid hd.trigger ir) _ h in
    let (k, two, h2) = >>=-eq-accepted (classify_target names hd.target t.1 t.0) _ h1 in
    let (more, all, h3) = >>=-eq-accepted (lower_handlers names sid rest k.0) _ h2 in
    let (first, trigger) = lower_trigger-Means sid hd.trigger ir st at one in
    let kind = classify_target-IsKind names hd.target t.1 t.0 two in
    let second = KeepsState-same sid t.0 k.0 first.now kind.grown kind.same_states first.at in
    let (third, others) = lower_handlers-Means names sid rest k.0 second.now second.at all in
    let g : HandlerIr = record { trigger = t.1; kind = k.1; decl_index = hd.decl_index } in
    let same : (more.0, g ∷ more.1) ≡ r = cc in
    subst
      (λ (q : Ir × List HandlerIr).
        KeepsState sid ir st q.0
        × (Fits (tables q.0)
            → IsIndexed ir.duration_triggers
            → HandlersMean (tables q.0) names (hd ∷ rest) q.1))
      same
      (
        KeepsState-trans first (KeepsState-trans second third),
        λ fits indexed.
            let fits_k = Extends-Fits third.pass.grown fits in
            let fits_t = Extends-Fits kind.grown fits_k in
            let indexed_t = first.pass.grown.indexed indexed in
            let indexed_k = kind.grown.indexed indexed_t in
            (
              (
                TriggerMeans-Extends (Extends-trans kind.grown third.pass.grown) hd.trigger t.1
                    (trigger fits_t indexed_t),
                KindMeans-Extends names third.pass.grown hd.target k.1 (kind.means fits_k),
                refl,
              ),
              others fits indexed_k,
            ),
      )
