-- ===== src/Lower/Bodies/Interned.antt =====
-- How the tables of hsmc-macros/src/ir.rs grow when a name is interned, and what its id stands for.
pub mod Entries
pub mod Actions
pub mod Events
pub mod Durations
use Prim.Native.String.{String}
use hsmc.Ir.{Ir, ActionIr, EventVariantIr, DurationTrigger, as_u16}
use hsmc.Lower.Bodies.Forest.{get_elem?-append_some}
use hsmc.Lower.Interning.{full_key}
use hsmc.Prelude.{
  refl, ℕ, ◌≤◌, ◌≡◌, ◌∙◌, ap, sym, some, List, [], ◌++◌, append_assoc, append-nil, map, length,
  length-append, get_elem?, arith,
}

-- The name of the chart, the names of the actions and the events by their ids, and the durations.
pub record Tables : Type 0 where
  pub chart : String
  pub actions : List String
  pub events : List String
  pub durations : List DurationTrigger

abbrev pub action_name : ActionIr → String
action_name a = a.name

abbrev pub event_name : EventVariantIr → String
event_name e = e.name

abbrev pub tables : Ir → Tables
tables ir = record {
  chart = ir.name;
  actions = map (λ (a : ActionIr). a.name) ir.actions;
  events = map (λ (e : EventVariantIr). e.name) ir.event_variants;
  durations = ir.duration_triggers;
}

-- No id of the tables overflows a `u16`.
pub record Fits (t : Tables) : Type 0 where
  pub actions_fit : length t.actions ≤ 65536
  pub events_fit : length t.events ≤ 65536
  pub durations_fit : length t.durations ≤ 65536

-- The id of a duration is its index, and its key tells if it repeats.
abbrev pub IsIndexed : List DurationTrigger → Type 0
IsIndexed ds =
    (j : ℕ) (d : DurationTrigger)
    → get_elem? ds j ≡ some d
    → (d.id ≡ as_u16 j) × (key : String) × (d.key ≡ full_key key d.repeat)

abbrev pub Prefix : {A : Type 0} → List A → List A → Type 0
Prefix {A} xs ys = (more : List A) × (ys ≡ xs ++ more)

-- The tables grow at their ends.
pub record Extends (t u : Tables) : Type 0 where
  pub same_chart : u.chart ≡ t.chart
  pub more_actions : Prefix t.actions u.actions
  pub more_events : Prefix t.events u.events
  pub more_durations : Prefix t.durations u.durations
  pub indexed : IsIndexed t.durations → IsIndexed u.durations

pub Prefix-refl : {A : Type 0} (xs : List A) → Prefix xs xs
Prefix-refl xs = ([], sym (append-nil xs))

Prefix-trans :
    {A : Type 0} (xs : List A) {ys zs : List A} → Prefix xs ys → Prefix ys zs → Prefix xs zs
Prefix-trans xs (a, e) (b, f) = (a ++ b, f ∙ ap (λ l. l ++ b) e ∙ append_assoc xs a b)

pub Prefix-at :
    {A : Type 0} (xs ys : List A) (i : ℕ) {a : A}
    → Prefix xs ys
    → get_elem? xs i ≡ some a
    → get_elem? ys i ≡ some a
Prefix-at xs ys i (more, e) h = ap (λ l. get_elem? l i) e ∙ get_elem?-append_some xs more i h

Prefix-le : {A : Type 0} (xs ys : List A) → Prefix xs ys → length xs ≤ length ys
Prefix-le xs ys (more, e) = omega (arith, ap length e, length-append xs more)

pub Extends-refl : (t : Tables) → Extends t t
Extends-refl t = record {
  same_chart = refl;
  more_actions = Prefix-refl t.actions;
  more_events = Prefix-refl t.events;
  more_durations = Prefix-refl t.durations;
  indexed = λ h. h;
}

pub Extends-trans : {t u v : Tables} → Extends t u → Extends u v → Extends t v
Extends-trans {t} h k = record {
  same_chart = k.same_chart ∙ h.same_chart;
  more_actions = Prefix-trans t.actions h.more_actions k.more_actions;
  more_events = Prefix-trans t.events h.more_events k.more_events;
  more_durations = Prefix-trans t.durations h.more_durations k.more_durations;
  indexed = λ i. k.indexed (h.indexed i);
}

pub Extends-Fits : {t u : Tables} → Extends t u → Fits u → Fits t
Extends-Fits {t} {u} h f = record {
  actions_fit = omega (arith, Prefix-le t.actions u.actions h.more_actions, f.actions_fit);
  events_fit = omega (arith, Prefix-le t.events u.events h.more_events, f.events_fit);
  durations_fit =
      omega (arith, Prefix-le t.durations u.durations h.more_durations, f.durations_fit);
}
