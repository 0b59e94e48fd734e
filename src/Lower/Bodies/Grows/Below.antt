-- ===== src/Lower/Bodies/Grows/Below.antt =====
-- `lower_body` and `lower_children` of hsmc-macros/src/ir.rs, where the depths fit a `u8` and the ids
-- a `u16`.
use Prim.Native.String.{String}
use hsmc.Input.{StateBody, StateDecls, body, nil, cons}
use hsmc.Ir.{Ir, StateIr, as_u16}
use hsmc.Lower.{alloc_state, fresh_state}
use hsmc.Lower.Bodies.{
  collect_state_names, collect_child_names, lower_body, lower_children, lower_items, depth_at,
  stash_default,
}
use hsmc.Lower.Bodies.Forest.{
  Frame, frame, frames, IsForest, IsForest-snoc, length-frames, frames-append, frames-at,
}
use hsmc.Lower.Bodies.Keeps.{IsOpen, Keeps-refl, edit_state-Keeps}
use hsmc.Lower.Bodies.Keeps.Passes.{lower_items-Keeps}
use hsmc.Prelude.{
  ℕ, ◌+◌, ◌<◌, ◌≤◌, ◌%◌, ◌≡◌, ◌∙◌, ap, sym, subst, refl, inl, inr, Option, none, some, Option-cases,
  List, [], ◌∷◌, ◌++◌, append-nil, length, get_elem?, All-append, arith,
}
use hsmc.Refusal.{accepted, >>=-eq-accepted}
use hsmc.Lower.Bodies.Grows.{
  nesting, deepest, state_count, child_count, Grows, Grows-trans, Keeps-Grows, Grows-at,
  Grows-length,
}

get_elem?-last : {A : Type 0} (xs : List A) (a : A) → get_elem? (xs ++ a ∷ []) (length xs) ≡ some a
get_elem?-last [] a = refl
get_elem?-last (x ∷ xs) a = get_elem?-last xs a

-- A state that is allocated below the state `sid`.
alloc_state-Grows :
    (name : String) (sid : ℕ) (f : Frame) (ir : Ir)
    → IsForest (frames ir.states)
    → get_elem? (frames ir.states) sid ≡ some f
    → length ir.states < 65536
    → Grows ir (alloc_state name (some sid) (f.depth + 1) ir) 1 (name ∷ [])
unfolding alloc_state
alloc_state-Grows name sid f ir forest at room =
    let new : StateIr = fresh_state (as_u16 (length ir.states)) name (some sid) (f.depth + 1) in
    let small : as_u16 (length ir.states) ≡ length (frames ir.states) =
      omega (arith, length-frames ir.states) in
    let grown : frames (ir.states ++ new ∷ []) ≡ frames ir.states ++ frame new ∷ [] =
      frames-append ir.states (new ∷ []) in
    let hung : IsForest (frames ir.states ++ frame new ∷ []) =
      subst
        (λ (i : ℕ). IsForest (
          frames ir.states
          ++ record { id = i; name = name; parent = some sid; depth = f.depth + 1 } ∷ []))
        (sym small) (IsForest-snoc (frames ir.states) name sid f forest at) in
    record {
      more = frame new ∷ [];
      named = refl;
      framed = grown;
      size = refl;
      forest = subst IsForest (sym grown) hung;
      timed = λ t none_left.
          All-append (λ (st : StateIr). st.owned_timers ≡ []) ir.states (new ∷ []) (t none_left)
            (refl, tt);
      open_states = λ o. All-append IsOpen ir.states (new ∷ []) o ((tt, refl), tt);
    }

-- The state that is allocated stands last.
alloc_state-at :
    (name : String) (sid depth : ℕ) (ir : Ir)
    → length ir.states < 65536
    → (f : Frame) × (get_elem?
          (frames (alloc_state name (some sid) depth ir).states)
          (as_u16 (length ir.states))
        ≡ some f)
      × (f.depth ≡ depth)
unfolding alloc_state
alloc_state-at name sid depth ir room =
    let new : StateIr = fresh_state (as_u16 (length ir.states)) name (some sid) depth in
    let small : as_u16 (length ir.states) ≡ length ir.states = omega arith in
    (
      frame new,
      ap (get_elem? (frames (ir.states ++ new ∷ []))) small
          ∙ frames-at (ir.states ++ new ∷ []) (length ir.states) (get_elem?-last ir.states new),
      refl,
    )

-- The `u8` that holds the depth of the children does not overflow.
depth_at-eq :
    (ir : Ir) (sid : ℕ) {f : Frame} {d : ℕ}
    → get_elem? (frames ir.states) sid ≡ some f
    → depth_at sid ir ≡ accepted d
    → d ≡ f.depth
depth_at-eq ir sid at h = elim (Option-cases (get_elem? ir.states sid)) [
  | inl e ↦ ground arith
  | inr (st, e) ↦ let found = frames-at ir.states sid e in ground arith
]

stash_default-frame : (o : Option String) (st : StateIr) → frame (stash_default o st) ≡ frame st
stash_default-frame none st = refl
stash_default-frame (some d) st = refl

stash_default-IsOpen : (o : Option String) (st : StateIr) → IsOpen st → IsOpen (stash_default o st)
stash_default-IsOpen none st h = h
stash_default-IsOpen (some d) st h = h

stash_default-timers :
    (o : Option String) (st : StateIr)
    → st.owned_timers ≡ []
    → (stash_default o st).owned_timers ≡ []
stash_default-timers none st h = h
stash_default-timers (some d) st h = h

mutual
  unfolding lower_body nesting state_count collect_state_names

  pub lower_body-Grows :
      (names : List String) (sid : ℕ) (b : StateBody) (ir : Ir) {ir' : Ir} (f : Frame)
      → IsForest (frames ir.states)
      → get_elem? (frames ir.states) sid ≡ some f
      → f.depth + nesting b < 256
      → length ir.states + state_count b ≤ 65536
      → lower_body names sid b ir ≡ accepted ir'
      → Grows ir ir' (state_count b) (collect_state_names b)
  lower_body-Grows names sid (body items kids) ir {ir'} f forest at shallow few h =
      let (a, done, h1) = >>=-eq-accepted (lower_items names sid items ir) _ h in
      let (d, depth, h2) = >>=-eq-accepted (depth_at sid a) _ h1 in
      let (r, lowered, h3) =
        >>=-eq-accepted (lower_children names sid ((d + 1) % 256) kids a) _ h2 in
      let first = Keeps-Grows forest (lower_items-Keeps names sid items ir done) in
      let here = Grows-at first sid at in
      let same : d ≡ f.depth = depth_at-eq a sid here depth in
      let kids_grow =
        lower_children-Grows names sid ((d + 1) % 256) kids a f first.forest here
          (ap (λ (k : ℕ). (k + 1) % 256) same) shallow (omega (arith, Grows-length first))
          lowered in
      let edit =
        λ (st : StateIr). stash_default items.default_child (record st { children = r.1 }) in
      let written = Keeps-Grows kids_grow.forest (
        edit_state-Keeps sid edit r.0 h3
          (λ st. stash_default-frame items.default_child (record st { children = r.1 }))
          (λ st o. stash_default-IsOpen items.default_child (record st { children = r.1 }) o)
          (λ z st o. stash_default-timers items.default_child (record st { children = r.1 }) o)) in
      let total : 0 + (child_count kids + 0) ≡ child_count kids = omega arith in
      subst (Grows ir ir' (child_count kids)) (append-nil (collect_child_names kids)) (
        subst (λ (n : ℕ). Grows ir ir' n (collect_child_names kids ++ [])) total
          (Grows-trans first (Grows-trans kids_grow written)))

  lower_children-Grows :
      (names : List String) (sid depth : ℕ) (kids : StateDecls) (ir : Ir) {r : Ir × List ℕ}
      (f : Frame)
      → IsForest (frames ir.states)
      → get_elem? (frames ir.states) sid ≡ some f
      → depth ≡ (f.depth + 1) % 256
      → f.depth + deepest kids < 256
      → length ir.states + child_count kids ≤ 65536
      → lower_children names sid depth kids ir ≡ accepted r
      → Grows ir r.0 (child_count kids) (collect_child_names kids)
  lower_children-Grows names sid depth nil ir {r} f forest at e shallow few h =
      let same : (ir, []) ≡ r = cc in
      subst (λ (q : Ir × List ℕ). Grows ir q.0 0 []) same (Keeps-Grows forest (Keeps-refl ir))
  lower_children-Grows names sid depth (cons name b rest) ir {r} f forest at e shallow few h =
      let cid = as_u16 (length ir.states) in
      let (a, one, h1) =
        >>=-eq-accepted (lower_body names cid b (alloc_state name (some sid) depth ir)) _ h in
      let (more, others, h2) = >>=-eq-accepted (lower_children names sid depth rest a) _ h1 in
      let fits : depth ≡ f.depth + 1 = omega arith in
      let alloc =
        subst (λ (d : ℕ). Grows ir (alloc_state name (some sid) d ir) 1 (name ∷ [])) (sym fits)
          (alloc_state-Grows name sid f ir forest at (omega arith)) in
      let (cf, born, deep) = alloc_state-at name sid depth ir (omega arith) in
      let below =
        lower_body-Grows names cid b (alloc_state name (some sid) depth ir) cf alloc.forest born
          (omega (arith, deep)) (omega (arith, Grows-length alloc)) one in
      let beside =
        lower_children-Grows names sid depth rest a f below.forest
          (Grows-at below sid (Grows-at alloc sid at)) e (omega arith)
          (omega (arith, Grows-length alloc, Grows-length below)) others in
      let same : (more.0, cid ∷ more.1) ≡ r = cc in
      subst
        (λ (q : Ir × List ℕ).
          Grows ir q.0 ((1 + state_count b) + child_count rest)
            ((name ∷ collect_state_names b) ++ collect_child_names rest))
        same (Grows-trans (Grows-trans alloc below) beside)
