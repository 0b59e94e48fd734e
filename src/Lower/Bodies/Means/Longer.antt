-- ===== src/Lower/Bodies/Means/Longer.antt =====
-- The passes of hsmc-macros/src/ir.rs take no state away.
use Prim.Native.String.{String}
use hsmc.Input.{Items, StateBody, StateDecls, body, nil, cons}
use hsmc.Ir.{Ir, StateIr, as_u16}
use hsmc.Lower.{alloc_state, fresh_state, edit_state}
use hsmc.Lower.Bodies.{lower_body, lower_children, lower_items, depth_at, stash_default}
use hsmc.Lower.Bodies.Forest.{length-frames}
use hsmc.Lower.Bodies.Keeps.{edit_state-eq}
use hsmc.Lower.Bodies.Keeps.Passes.{lower_items-Keeps}
use hsmc.Prelude.{
  ℕ, zero, suc, ◌+◌, ◌≤◌, ◌%◌, ◌≡◌, ◌∙◌, ap, sym, refl, some, List, [], ◌∷◌, length, length-append,
  set, arith,
}
use hsmc.Refusal.{accepted, >>=-eq-accepted}

length-set : (xs : List StateIr) (i : ℕ) (new : StateIr) → length (set xs i new) ≡ length xs
length-set [] i new = refl
length-set (x ∷ xs) zero new = refl
length-set (x ∷ xs) (suc i) new = ap suc (length-set xs i new)

pub edit_state-length :
    (sid : ℕ) (f : StateIr → StateIr) (ir : Ir) {ir' : Ir}
    → edit_state sid f ir ≡ accepted ir'
    → length ir'.states ≡ length ir.states
edit_state-length sid f ir h =
    let (st, at, same) = edit_state-eq sid f ir h in
    ap (λ (q : Ir). length q.states) (sym same) ∙ length-set ir.states sid (f st)

lower_items-length :
    (names : List String) (sid : ℕ) (items : Items) (ir : Ir) {ir' : Ir}
    → lower_items names sid items ir ≡ accepted ir'
    → length ir'.states ≡ length ir.states
lower_items-length names sid items ir {ir'} h =
    sym (length-frames ir'.states)
    ∙ ap length (lower_items-Keeps names sid items ir h).framed
    ∙ length-frames ir.states

-- No pass takes a state away.
mutual
  unfolding lower_body alloc_state

  pub lower_body-longer :
      (names : List String) (sid : ℕ) (b : StateBody) (ir : Ir) {ir' : Ir}
      → lower_body names sid b ir ≡ accepted ir'
      → length ir.states ≤ length ir'.states
  lower_body-longer names sid (body items kids) ir h =
      let (a, done, h1) = >>=-eq-accepted (lower_items names sid items ir) _ h in
      let (d, depth, h2) = >>=-eq-accepted (depth_at sid a) _ h1 in
      let (r, lowered, h3) =
        >>=-eq-accepted (lower_children names sid ((d + 1) % 256) kids a) _ h2 in
      let written =
        edit_state-length sid
          (λ (st : StateIr). stash_default items.default_child (record st { children = r.1 })) r.0
          h3 in
      omega (
        arith,
        lower_items-length names sid items ir done,
        lower_children-longer names sid ((d + 1) % 256) kids a lowered,
        written,
      )

  pub lower_children-longer :
      (names : List String) (sid depth : ℕ) (kids : StateDecls) (ir : Ir) {r : Ir × List ℕ}
      → lower_children names sid depth kids ir ≡ accepted r
      → length ir.states ≤ length r.0.states
  lower_children-longer names sid depth nil ir {r} h =
      let same : (ir, []) ≡ r = cc in
      omega (arith, ap (λ (q : Ir × List ℕ). length q.0.states) same)
  lower_children-longer names sid depth (cons name b rest) ir {r} h =
      let cid = as_u16 (length ir.states) in
      let (a, one, h1) =
        >>=-eq-accepted (lower_body names cid b (alloc_state name (some sid) depth ir)) _ h in
      let (more, others, h2) = >>=-eq-accepted (lower_children names sid depth rest a) _ h1 in
      let same : (more.0, cid ∷ more.1) ≡ r = cc in
      omega (
        arith,
        length-append ir.states (fresh_state cid name (some sid) depth ∷ []),
        lower_body-longer names cid b (alloc_state name (some sid) depth ir) one,
        lower_children-longer names sid depth rest a others,
        ap (λ (q : Ir × List ℕ). length q.0.states) same,
      )
