-- ===== src/Lower/Resolve/Targets.antt =====
-- The lowered states of hsmc-macros/src/ir.rs after `resolve_transitions`: targets are states of the
-- tree, which is the one before.
use Prim.Native.String.{String}
use hsmc.Ir.{Ir, StateIr, HandlerIr, HandlerKindIr}
use hsmc.Lower.Bodies.Correct.{IsLowered}
use hsmc.Lower.Bodies.Forest.{frame, frames, IsForest, length-frames, frames-at}
use hsmc.Lower.Bodies.Keeps.{IsOpen, IsOpenKind, IsOpenHandler, IsTimed}
use hsmc.Lower.Resolve.{resolve_transitions}
use hsmc.Lower.Resolve.Correct.{
  Bears, KindSettles, HandlersSettle, DefaultSettles, Settles, Both, resolve_transitions-Both,
}
use hsmc.Machine.Sound.{IsTarget}
use hsmc.Prelude.{
  get_elem?-range, ℕ, ◌<◌, ◌≡◌, ◌∙◌, ap, sym, subst, refl, Option, none, some, List, [], ◌∷◌,
  length, All,
}
use hsmc.Refusal.{accepted}

-- The target of a handler, where it has one, is a state.
abbrev pub IsKnownKind : ℕ → HandlerKindIr → Type 0
IsKnownKind n (HandlerKindIr.transition target slot) = IsTarget n slot
IsKnownKind n (HandlerKindIr.action id name) = Unit

abbrev pub IsKnown : ℕ → StateIr → Type 0
IsKnown n st =
    All (λ (h : HandlerIr). IsKnownKind n h.kind) st.handlers × IsTarget n st.default_child

pub record IsResolved (ir : Ir) : Type 0 where
  pub forest : IsForest (frames ir.states)
  pub timed : IsTimed ir
  pub known : All (IsKnown (length ir.states)) ir.states

module _ (N : String → ℕ → Type 0) (n : ℕ)
    (bounded : (name : String) (id : ℕ) → N name id → id < n) where
  KindSettles-IsKnown :
      (k k' : HandlerKindIr) → IsOpenKind k → KindSettles N k k' → IsKnownKind n k'
  KindSettles-IsKnown (HandlerKindIr.action id name) k' o s = subst (IsKnownKind n) (sym s) tt
  KindSettles-IsKnown (HandlerKindIr.transition target none) k' o (id, s, named) =
      subst (IsKnownKind n) (sym s) (bounded target id named)
  KindSettles-IsKnown (HandlerKindIr.transition target (some slot)) k' o s = cc

  HandlersSettle-IsKnown :
      (hs hs' : List HandlerIr)
      → All IsOpenHandler hs
      → HandlersSettle N hs hs'
      → All (λ (h : HandlerIr). IsKnownKind n h.kind) hs'
  HandlersSettle-IsKnown [] [] o s = tt
  HandlersSettle-IsKnown [] (h' ∷ hs') o s = absurd s
  HandlersSettle-IsKnown (h ∷ hs) [] o s = absurd s
  HandlersSettle-IsKnown (h ∷ hs) (h' ∷ hs') o s =
      (KindSettles-IsKnown h.kind h'.kind o.0 s.2, HandlersSettle-IsKnown hs hs' o.1 s.3)

  DefaultSettles-IsTarget :
      (name : Option String) (d d' : Option ℕ)
      → d ≡ none
      → DefaultSettles N name d d'
      → IsTarget n d'
  DefaultSettles-IsTarget none d d' o s = subst (IsTarget n) (sym (s ∙ o)) tt
  DefaultSettles-IsTarget (some name) d d' o (id, s, named) =
      subst (IsTarget n) (sym s) (bounded name id named)

  Both-IsKnown :
      (xs ys : List StateIr) → All IsOpen xs → Both (Settles N) xs ys → All (IsKnown n) ys
  Both-IsKnown [] [] o b = tt
  Both-IsKnown [] (y ∷ ys) o b = absurd b
  Both-IsKnown (x ∷ xs) [] o b = absurd b
  Both-IsKnown (x ∷ xs) (y ∷ ys) o b =
      let s : Settles N x y = b.0 in
      (
        (
          HandlersSettle-IsKnown x.handlers y.handlers o.0.0 s.handlers,
          DefaultSettles-IsTarget x.default_target_ident x.default_child y.default_child o.0.1
              s.default_found,
        ),
        Both-IsKnown xs ys o.1 b.1,
      )

module _ (N : String → ℕ → Type 0) where
  Both-frames : (xs ys : List StateIr) → Both (Settles N) xs ys → frames ys ≡ frames xs
  Both-frames [] [] b = refl
  Both-frames [] (y ∷ ys) b = absurd b
  Both-frames (x ∷ xs) [] b = absurd b
  Both-frames (x ∷ xs) (y ∷ ys) b =
      let s : Settles N x y = b.0 in
      ap (λ f. f ∷ frames ys) (ap frame s.rest) ∙ ap (λ l. frame x ∷ l) (Both-frames xs ys b.1)

  Both-timers :
      (xs ys : List StateIr)
      → All (λ (st : StateIr). st.owned_timers ≡ []) xs
      → Both (Settles N) xs ys
      → All (λ (st : StateIr). st.owned_timers ≡ []) ys
  Both-timers [] [] o b = tt
  Both-timers [] (y ∷ ys) o b = absurd b
  Both-timers (x ∷ xs) [] o b = absurd b
  Both-timers (x ∷ xs) (y ∷ ys) o b =
      let s : Settles N x y = b.0 in
      (ap (λ (st : StateIr). st.owned_timers) s.rest ∙ o.0, Both-timers xs ys o.1 b.1)

Bears-lt : (ir : Ir) (name : String) (id : ℕ) → Bears ir name id → id < length ir.states
unfolding Bears
Bears-lt ir name id (st, at, called) = get_elem?-range ir.states id at

-- What the lowering makes is resolved to states of its tree, with the ids, names, parents and depths
-- that the lowering gave them.
pub resolve_transitions-IsResolved :
    (ir ir' : Ir)
    → IsLowered ir
    → resolve_transitions ir ≡ accepted ir'
    → IsResolved ir'
      × (length ir'.states ≡ length ir.states)
      × (frames ir'.states ≡ frames ir.states)
resolve_transitions-IsResolved ir ir' low h =
    let (rest, both) =
      resolve_transitions-Both ir ir'
        (λ i st at. low.forest.indexed i (frame st) (frames-at ir.states i at)) h in
    let same_frames = Both-frames (Bears ir) ir.states ir'.states both in
    let size : length ir'.states ≡ length ir.states =
      sym (length-frames ir'.states) ∙ ap length same_frames ∙ length-frames ir.states in
    (
      record {
        forest = subst IsForest (sym same_frames) low.forest;
        timed = λ none_left.
            Both-timers (Bears ir) ir.states ir'.states
              (low.timed (ap (λ (r : Ir). length r.duration_triggers) (sym rest) ∙ none_left)) both;
        known =
            subst (λ n. All (IsKnown n) ir'.states) (sym size)
              (Both-IsKnown (Bears ir) (length ir.states) (Bears-lt ir) ir.states ir'.states
                low.open_states both);
      },
      size,
      same_frames,
    )
