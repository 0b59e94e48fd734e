-- ===== src/Lower/Resolve/Means.antt =====
-- `resolve_transitions` of hsmc-macros/src/ir.rs leaves what the states stand for.
use Prim.Native.String.{String}
use hsmc.Input.{Handler, Items, StateBody, StateDecls, body, nil, cons}
use hsmc.Ir.{Ir, StateIr, HandlerIr, HandlerKindIr}
use hsmc.Lower.Bodies.Interned.{Tables, tables}
use hsmc.Lower.Bodies.Means.{
  Stand, TriggerMeans, KindMeans, HandlersMean, StateMeans, BodyMeans, ChildrenMean,
}
use hsmc.Lower.Resolve.{resolve_transitions}
use hsmc.Lower.Resolve.Correct.{
  KindSettles, HandlersSettle, Settles, Both, resolve_transitions-Both,
}
use hsmc.Prelude.{
  ℕ, zero, suc, ◌+◌, ◌≡◌, ◌∙◌, ap, sym, subst, refl, none, some, List, [], ◌∷◌, get_elem?,
}
use hsmc.Refusal.{accepted}

-- The elements at one index.
pub Both-at :
    (R : StateIr → StateIr → Type 0) (xs ys : List StateIr) (i : ℕ) {x : StateIr}
    → Both R xs ys
    → get_elem? xs i ≡ some x
    → (y : StateIr) × (get_elem? ys i ≡ some y) × R x y
Both-at R [] ys i both at = cc
Both-at R (a ∷ xs) [] i both at = absurd both
Both-at R (a ∷ xs) (b ∷ ys) zero both at =
    let same : a ≡ _ = cc in (b, refl, subst (λ q. R q b) same both.0)
Both-at R (a ∷ xs) (b ∷ ys) (suc i) both at = Both-at R xs ys i both.1 at

pub Both-at_back :
    (R : StateIr → StateIr → Type 0) (xs ys : List StateIr) (i : ℕ) {y : StateIr}
    → Both R xs ys
    → get_elem? ys i ≡ some y
    → (x : StateIr) × (get_elem? xs i ≡ some x) × R x y
Both-at_back R [] [] i both at = cc
Both-at_back R [] (b ∷ ys) i both at = absurd both
Both-at_back R (a ∷ xs) [] i both at = absurd both
Both-at_back R (a ∷ xs) (b ∷ ys) zero both at =
    let same : b ≡ _ = cc in (a, refl, subst (R a) same both.0)
Both-at_back R (a ∷ xs) (b ∷ ys) (suc i) both at = Both-at_back R xs ys i both.1 at

module _ (t : Tables) (names : List String) (N : String → ℕ → Type 0) where
  KindMeans-Settles :
      (target : String) (k k' : HandlerKindIr)
      → KindMeans t names target k
      → KindSettles N k k'
      → KindMeans t names target k'
  KindMeans-Settles target (HandlerKindIr.action id name) k' m e =
      subst (KindMeans t names target) (sym e) m
  KindMeans-Settles target (HandlerKindIr.transition name (some slot)) k' m e =
      subst (KindMeans t names target) (sym e) m
  KindMeans-Settles target (HandlerKindIr.transition name none) k' m (id, e, found) =
      subst (KindMeans t names target) (sym e) m

  HandlersMean-Settles :
      (hs : List Handler) (gs gs' : List HandlerIr)
      → HandlersMean t names hs gs
      → HandlersSettle N gs gs'
      → HandlersMean t names hs gs'
  HandlersMean-Settles [] [] [] m e = tt
  HandlersMean-Settles [] [] (g' ∷ gs') m e = absurd e
  HandlersMean-Settles [] (g ∷ gs) gs' m e = absurd m
  HandlersMean-Settles (h ∷ hs) [] gs' m e = absurd m
  HandlersMean-Settles (h ∷ hs) (g ∷ gs) [] m e = absurd e
  HandlersMean-Settles (h ∷ hs) (g ∷ gs) (g' ∷ gs') ((trig, kind, index), rest) (e0, e1, e2, es) = (
    (
      subst (TriggerMeans t h.trigger) (sym e0) trig,
      KindMeans-Settles h.target g.kind g'.kind kind e2,
      e1 ∙ index,
    ),
    HandlersMean-Settles hs gs gs' rest es,
  )

  StateMeans-Settles :
      (items : Items) (s s' : StateIr)
      → StateMeans t names items s
      → Settles N s s'
      → StateMeans t names items s'
  StateMeans-Settles items s s' m e = record {
    entries =
        subst (λ is. Stand t.actions is items.entries)
          (sym (ap (λ (q : StateIr). q.entries) e.rest)) m.entries;
    exits =
        subst (λ is. Stand t.actions is items.exits) (sym (ap (λ (q : StateIr). q.exits) e.rest))
          m.exits;
    handlers = HandlersMean-Settles items.handlers s.handlers s'.handlers m.handlers e.handlers;
    durings = ap (λ (q : StateIr). q.durings) e.rest ∙ m.durings;
    default_target = ap (λ (q : StateIr). q.default_target_ident) e.rest ∙ m.default_target;
  }

  module _ (xs ys : List StateIr) (both : Both (Settles N) xs ys) where
    mutual
      unfolding BodyMeans

      pub BodyMeans-Settles :
          (sid : ℕ) (b : StateBody) → BodyMeans t names xs sid b → BodyMeans t names ys sid b
      BodyMeans-Settles sid (body items kids) (st, at, means, children) =
          let (st', at', e) = Both-at (Settles N) xs ys sid both at in
          (
            st',
            at',
            StateMeans-Settles items st st' means e,
            subst (λ cs. ChildrenMean t names ys sid (sid + 1) cs kids)
                (sym (ap (λ (q : StateIr). q.children) e.rest))
                (ChildrenMean-Settles sid (sid + 1) st.children kids children),
          )

      ChildrenMean-Settles :
          (sid least : ℕ) (cs : List ℕ) (kids : StateDecls)
          → ChildrenMean t names xs sid least cs kids
          → ChildrenMean t names ys sid least cs kids
      ChildrenMean-Settles sid least [] nil m = tt
      ChildrenMean-Settles sid least [] (cons name b rest) m = absurd m
      ChildrenMean-Settles sid least (c ∷ cs) nil m = absurd m
      ChildrenMean-Settles sid least (c ∷ cs) (cons name b rest)
            (le, (st, at, called, under), inner, others) =
          let (st', at', e) = Both-at (Settles N) xs ys c both at in
          (
            le,
            (
              st',
              at',
              ap (λ (q : StateIr). q.name) e.rest ∙ called,
              ap (λ (q : StateIr). q.parent) e.rest ∙ under,
            ),
            BodyMeans-Settles c b inner,
            ChildrenMean-Settles sid least cs rest others,
          )

pub resolve_transitions-BodyMeans :
    (ir ir' : Ir) (names : List String) (sid : ℕ) (b : StateBody)
    → ((i : ℕ) (st : StateIr) → get_elem? ir.states i ≡ some st → st.id ≡ i)
    → resolve_transitions ir ≡ accepted ir'
    → BodyMeans (tables ir) names ir.states sid b
    → BodyMeans (tables ir') names ir'.states sid b
resolve_transitions-BodyMeans ir ir' names sid b indexed h m =
    let (rest, both) = resolve_transitions-Both ir ir' indexed h in
    subst (λ t. BodyMeans t names ir'.states sid b) (sym (ap tables rest))
      (BodyMeans-Settles (tables ir) names _ ir.states ir'.states both sid b m)
