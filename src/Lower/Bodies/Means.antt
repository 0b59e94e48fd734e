-- ===== src/Lower/Bodies/Means.antt =====
-- What the states of the intermediate representation (hsmc-macros/src/ir.rs) stand for in the parsed
-- tree: ids are read through the tables of names.
pub mod Longer
pub mod Passes
pub mod Handlers
pub mod OwnItems
pub mod Recursion
pub mod Whole
use Prim.Native.String.{String}
use hsmc.Input.{Trigger, Handler, Items, StateBody, StateDecls, body, nil, cons}
use hsmc.Ir.{StateIr, HandlerIr, TriggerIr, HandlerKindIr, DurationTrigger}
use hsmc.Lower.Bodies.{has_name}
use hsmc.Lower.Bodies.Interned.{Tables, Extends, Prefix-at}
use hsmc.Lower.Interning.{full_key}
use hsmc.Prelude.{ℕ, ◌+◌, ◌≤◌, ◌≡◌, true, false, some, List, [], ◌∷◌, get_elem?, arith}

-- The ids stand for the names in the table, in order.
abbrev pub Stand : List String → List ℕ → List String → Type 0
Stand xs [] [] = Unit
Stand xs [] (n ∷ ns) = ⊥
Stand xs (i ∷ is) [] = ⊥
Stand xs (i ∷ is) (n ∷ ns) = (get_elem? xs i ≡ some n) × Stand xs is ns

-- A trigger: an event by its name and payload, a duration by its key and if it repeats.
abbrev pub TriggerMeans : Tables → Trigger → TriggerIr → Type 0
TriggerMeans t (Trigger.event v payload) (TriggerIr.event id v' payload') =
    (get_elem? t.events id ≡ some v) × (v' ≡ v) × (payload' ≡ payload)
TriggerMeans t (Trigger.event v payload) (TriggerIr.duration id) = ⊥
TriggerMeans t (Trigger.duration e key repeat) (TriggerIr.event id v payload) = ⊥
TriggerMeans t (Trigger.duration e key repeat) (TriggerIr.duration id) =
    (d : DurationTrigger) × (get_elem? t.durations id ≡ some d)
    × (d.key ≡ full_key key repeat)
    × (d.repeat ≡ repeat)

-- A target: a transition if it is among the names, an action otherwise.
abbrev pub KindMeans : Tables → List String → String → HandlerKindIr → Type 0
KindMeans t names target (HandlerKindIr.transition name slot) =
    (has_name target names ≡ true) × (name ≡ target)
KindMeans t names target (HandlerKindIr.action id name) =
    (has_name target names ≡ false) × (name ≡ target) × (get_elem? t.actions id ≡ some target)

abbrev pub HandlerMeans : Tables → List String → Handler → HandlerIr → Type 0
HandlerMeans t names h g =
    TriggerMeans t h.trigger g.trigger
    × KindMeans t names h.target g.kind
    × (g.decl_index ≡ h.decl_index)

abbrev pub HandlersMean : Tables → List String → List Handler → List HandlerIr → Type 0
HandlersMean t names [] [] = Unit
HandlersMean t names [] (g ∷ gs) = ⊥
HandlersMean t names (h ∷ hs) [] = ⊥
HandlersMean t names (h ∷ hs) (g ∷ gs) = HandlerMeans t names h g × HandlersMean t names hs gs

-- A state has the items of its body.
pub record StateMeans (t : Tables) (names : List String) (items : Items) (st : StateIr)
    : Type 0 where
  pub entries : Stand t.actions st.entries items.entries
  pub exits : Stand t.actions st.exits items.exits
  pub handlers : HandlersMean t names items.handlers st.handlers
  pub durings : st.durings ≡ items.durings
  pub default_target : st.default_target_ident ≡ items.default_child

-- The state `sid` has the items of the body, and its children, all of which come after it, are those of
-- the body in order.
unfoldable mutual
  pub BodyMeans : Tables → List String → List StateIr → ℕ → StateBody → Type 0
  BodyMeans t names states sid (body items kids) =
      (st : StateIr) × (get_elem? states sid ≡ some st)
      × StateMeans t names items st
      × ChildrenMean t names states sid (sid + 1) st.children kids

  pub ChildrenMean : Tables → List String → List StateIr → ℕ → ℕ → List ℕ → StateDecls → Type 0
  ChildrenMean t names states sid least [] nil = Unit
  ChildrenMean t names states sid least [] (cons name b rest) = ⊥
  ChildrenMean t names states sid least (c ∷ cs) nil = ⊥
  ChildrenMean t names states sid least (c ∷ cs) (cons name b rest) =
      (least ≤ c)
      × ((st : StateIr) × (get_elem? states c ≡ some st)
          × (st.name ≡ name)
          × (st.parent ≡ some sid))
      × BodyMeans t names states c b
      × ChildrenMean t names states sid least cs rest

-- What is in the tables stays when they grow.
pub Stand-Prefix :
    {t u : Tables}
    → Extends t u
    → (is : List ℕ) (ns : List String) → Stand t.actions is ns
    → Stand u.actions is ns
Stand-Prefix g [] [] h = tt
Stand-Prefix g [] (n ∷ ns) h = absurd h
Stand-Prefix g (i ∷ is) [] h = absurd h
Stand-Prefix {t} {u} g (i ∷ is) (n ∷ ns) h =
    (Prefix-at t.actions u.actions i g.more_actions h.0, Stand-Prefix g is ns h.1)

pub TriggerMeans-Extends :
    {t u : Tables}
    → Extends t u
    → (a : Trigger) (b : TriggerIr) → TriggerMeans t a b
    → TriggerMeans u a b
TriggerMeans-Extends {t} {u} g (Trigger.event v p) (TriggerIr.event id v' p') h =
    (Prefix-at t.events u.events id g.more_events h.0, h.1, h.2)
TriggerMeans-Extends g (Trigger.event v p) (TriggerIr.duration id) h = absurd h
TriggerMeans-Extends g (Trigger.duration e key r) (TriggerIr.event id v p) h = absurd h
TriggerMeans-Extends {t} {u} g (Trigger.duration e key r) (TriggerIr.duration id)
      (d, at, same, mode) =
    (d, Prefix-at t.durations u.durations id g.more_durations at, same, mode)

pub KindMeans-Extends :
    {t u : Tables} (names : List String)
    → Extends t u
    → (target : String) (k : HandlerKindIr) → KindMeans t names target k
    → KindMeans u names target k
KindMeans-Extends names g target (HandlerKindIr.transition name slot) h = h
KindMeans-Extends {t} {u} names g target (HandlerKindIr.action id name) h =
    (h.0, h.1, Prefix-at t.actions u.actions id g.more_actions h.2)

pub HandlersMean-Extends :
    {t u : Tables} (names : List String)
    → Extends t u
    → (hs : List Handler) (gs : List HandlerIr) → HandlersMean t names hs gs
    → HandlersMean u names hs gs
HandlersMean-Extends names g [] [] m = tt
HandlersMean-Extends names g [] (x ∷ gs) m = absurd m
HandlersMean-Extends names g (h ∷ hs) [] m = absurd m
HandlersMean-Extends names g (h ∷ hs) (x ∷ gs) (m, ms) = (
  (
    TriggerMeans-Extends g h.trigger x.trigger m.0,
    KindMeans-Extends names g h.target x.kind m.1,
    m.2,
  ),
  HandlersMean-Extends names g hs gs ms,
)

StateMeans-Extends :
    {t u : Tables} (names : List String) (items : Items) (st : StateIr)
    → Extends t u
    → StateMeans t names items st
    → StateMeans u names items st
StateMeans-Extends names items st g m = record {
  entries = Stand-Prefix g st.entries items.entries m.entries;
  exits = Stand-Prefix g st.exits items.exits m.exits;
  handlers = HandlersMean-Extends names g items.handlers st.handlers m.handlers;
  durings = m.durings;
  default_target = m.default_target;
}

-- From `least` on the states stay.
abbrev pub Stay : ℕ → List StateIr → List StateIr → Type 0
Stay least xs ys =
    (i : ℕ) (st : StateIr) → least ≤ i → get_elem? xs i ≡ some st → get_elem? ys i ≡ some st

module _ {t u : Tables} (names : List String) (xs ys : List StateIr) (grown : Extends t u) where
  mutual
    unfolding BodyMeans

    pub BodyMeans-Stay :
        (sid : ℕ) (b : StateBody)
        → Stay sid xs ys
        → BodyMeans t names xs sid b
        → BodyMeans u names ys sid b
    BodyMeans-Stay sid (body items kids) stay (st, at, means, children) = (
      st,
      stay sid st (omega arith) at,
      StateMeans-Extends names items st grown means,
      ChildrenMean-Stay sid (sid + 1) st.children kids (λ i s b h. stay i s (omega arith) h)
          children,
    )

    pub ChildrenMean-Stay :
        (sid least : ℕ) (cs : List ℕ) (kids : StateDecls)
        → Stay least xs ys
        → ChildrenMean t names xs sid least cs kids
        → ChildrenMean u names ys sid least cs kids
    ChildrenMean-Stay sid least [] nil stay m = tt
    ChildrenMean-Stay sid least [] (cons name b rest) stay m = absurd m
    ChildrenMean-Stay sid least (c ∷ cs) nil stay m = absurd m
    ChildrenMean-Stay sid least (c ∷ cs) (cons name b rest) stay
          (le, (st, at, called, under), inner, others) =
        (
          le,
          (st, stay c st le at, called, under),
          BodyMeans-Stay c b (λ i s bound h. stay i s (omega arith) h) inner,
          ChildrenMean-Stay sid least cs rest stay others,
        )
