-- ===== src/Lower/Bodies/Means/Recursion.antt =====
-- `lower_body` and `build_ir` of hsmc-macros/src/ir.rs: the states stand for the bodies they are made of.
use Prim.Native.String.{String}
use hsmc.Input.{StateBody, StateDecls, body, nil, cons}
use hsmc.Ir.{Ir, StateIr, as_u16}
use hsmc.Lower.{alloc_state, fresh_state}
use hsmc.Lower.Bodies.{lower_body, lower_children, lower_items, depth_at, stash_default}
use hsmc.Lower.Bodies.Forest.{get_elem?-append_some}
use hsmc.Lower.Bodies.Interned.{
  tables, Fits, Extends, Extends-refl, Extends-trans, Extends-Fits, IsIndexed,
}
use hsmc.Lower.Bodies.Means.{
  BodyMeans, ChildrenMean, Stay, BodyMeans-Stay, ChildrenMean-Stay, Stand-Prefix,
  HandlersMean-Extends,
}
use hsmc.Lower.Bodies.Means.Passes.{Pass, Pass-trans, edit_state-Pass}
use hsmc.Lower.Bodies.Means.OwnItems.{lower_items-HasItems}
use hsmc.Lower.Bodies.Means.Longer.{edit_state-length, lower_body-longer, lower_children-longer}
use hsmc.Prelude.{
  ℕ, ◌+◌, ◌≤◌, ◌%◌, ◌≡◌, ◌∙◌, ap, subst, refl, Option, none, some, List, [], ◌∷◌, length,
  length-append, get_elem?, get_elem?-range, get_elem?-append_last, arith,
}
use hsmc.Refusal.{accepted, >>=-eq-accepted}

stash_default-eq :
    (o : Option String) (st : StateIr)
    → st.default_target_ident ≡ none
    → stash_default o st ≡ record st { default_target_ident = o }
stash_default-eq none st h = ap (λ d. record st { default_target_ident = d }) h
stash_default-eq (some d) st h = refl

-- The state `sid` when its body is lowered.
pub record HasBody (names : List String) (sid : ℕ) (b : StateBody) (ir : Ir) (st : StateIr)
    (ir' : Ir) : Type 0 where
  pub pass : Pass sid ir ir'
  pub now : StateIr
  pub at : get_elem? ir'.states sid ≡ some now
  pub name_kept : now.name ≡ st.name
  pub parent_kept : now.parent ≡ st.parent
  pub means :
      Fits (tables ir')
      → IsIndexed ir.duration_triggers
      → BodyMeans (tables ir') names ir'.states sid b

-- The children of `sid` when they are lowered; no state that was there before changes.
record HasChildren (names : List String) (sid least : ℕ) (kids : StateDecls) (ir : Ir)
    (r : Ir × List ℕ) : Type 0 where
  pub grown : Extends (tables ir) (tables r.0)
  pub stay : Stay 0 ir.states r.0.states
  pub means :
      Fits (tables r.0)
      → IsIndexed ir.duration_triggers
      → ChildrenMean (tables r.0) names r.0.states sid least r.1 kids

mutual
  unfolding lower_body alloc_state BodyMeans

  pub lower_body-HasBody :
      (names : List String) (sid : ℕ) (b : StateBody) (ir : Ir) (st : StateIr) {ir' : Ir}
      → get_elem? ir.states sid ≡ some st
      → st.default_target_ident ≡ none
      → length ir'.states ≤ 65536
      → lower_body names sid b ir ≡ accepted ir'
      → HasBody names sid b ir st ir'
  lower_body-HasBody names sid (body items kids) ir st {ir'} at fresh few h =
      let (a, done, h1) = >>=-eq-accepted (lower_items names sid items ir) _ h in
      let (d, depth, h2) = >>=-eq-accepted (depth_at sid a) _ h1 in
      let (r, lowered, h3) =
        >>=-eq-accepted (lower_children names sid ((d + 1) % 256) kids a) _ h2 in
      let put = λ (s : StateIr). stash_default items.default_child (record s { children = r.1 }) in
      let same_length = edit_state-length sid put r.0 h3 in
      let own = lower_items-HasItems names sid items ir st at done in
      let children =
        lower_children-HasChildren names sid (sid + 1) ((d + 1) % 256) kids a
          (let range = get_elem?-range a.states sid own.at in omega arith)
          (omega (arith, same_length)) lowered in
      let at_r = children.stay sid own.now (omega arith) own.at in
      let (pass_last, at_last) = edit_state-Pass sid put r.0 h3 at_r in
      let last : StateIr = record own.now {
        children = r.1;
        default_target_ident = items.default_child;
      } in
      let same : put own.now ≡ last =
        stash_default-eq items.default_child (record own.now { children = r.1 })
          (own.default_kept ∙ fresh) in
      record {
        pass = Pass-trans own.pass (
            Pass-trans
              (record {
                grown = children.grown;
                others = λ i s differ e. children.stay i s (omega arith) e;
              })
              pass_last);
        now = last;
        at = at_last ∙ ap (λ s. some s) same;
        name_kept = own.name_kept;
        parent_kept = own.parent_kept;
        means = λ fits indexed.
            let to_end = Extends-trans children.grown pass_last.grown in
            let fits_r = Extends-Fits pass_last.grown fits in
            let fits_a = Extends-Fits children.grown fits_r in
            let (ins, outs, handled, run) = own.means fits_a indexed in
            (
              last,
              at_last ∙ ap (λ s. some s) same,
              record {
                entries = Stand-Prefix to_end own.now.entries items.entries ins;
                exits = Stand-Prefix to_end own.now.exits items.exits outs;
                handlers =
                    HandlersMean-Extends names to_end items.handlers own.now.handlers handled;
                durings = run;
                default_target = refl;
              },
              ChildrenMean-Stay names r.0.states ir'.states pass_last.grown sid (sid + 1) r.1 kids
                  (λ i s bound e. pass_last.others i s (λ q. absurd (omega (arith, q))) e)
                  (children.means fits_r (own.pass.grown.indexed indexed)),
            );
      }

  lower_children-HasChildren :
      (names : List String) (sid least depth : ℕ) (kids : StateDecls) (ir : Ir) {r : Ir × List ℕ}
      → least ≤ length ir.states
      → length r.0.states ≤ 65536
      → lower_children names sid depth kids ir ≡ accepted r
      → HasChildren names sid least kids ir r
  lower_children-HasChildren names sid least depth nil ir {r} after few h =
      let same : (ir, []) ≡ r = cc in
      subst (HasChildren names sid least nil ir) same (record {
        grown = Extends-refl (tables ir);
        stay = λ i s bound e. e;
        means = λ fits indexed. tt;
      })
  lower_children-HasChildren names sid least depth (cons name b rest) ir {r} after few h =
      let cid = as_u16 (length ir.states) in
      let new = fresh_state cid name (some sid) depth in
      let ir1 = alloc_state name (some sid) depth ir in
      let (a, one, h1) = >>=-eq-accepted (lower_body names cid b ir1) _ h in
      let (more, others, h2) = >>=-eq-accepted (lower_children names sid depth rest a) _ h1 in
      let same : (more.0, cid ∷ more.1) ≡ r = cc in
      let few' : length more.0.states ≤ 65536 =
        omega (arith, ap (λ (q : Ir × List ℕ). length q.0.states) same) in
      let longer = lower_children-longer names sid depth rest a others in
      let longer' = lower_body-longer names cid b ir1 one in
      let size = length-append ir.states (new ∷ []) in
      let here : cid ≡ length ir.states = omega (arith, longer, longer', size, few') in
      let born : get_elem? ir1.states cid ≡ some new =
        ap (get_elem? ir1.states) here ∙ get_elem?-append_last ir.states new [] in
      let below = lower_body-HasBody names cid b ir1 new born refl (omega arith) one in
      let beside =
        lower_children-HasChildren names sid least depth rest a (omega (arith, size)) few' others in
      let kept : Stay 0 ir.states a.states = λ i s bound e.
        let range = get_elem?-range ir.states i e in
        below.pass.others i s (λ q. absurd (omega (arith, here, q)))
          (get_elem?-append_some ir.states (new ∷ []) i e) in
      subst (HasChildren names sid least (cons name b rest) ir) same (record {
        grown = Extends-trans below.pass.grown beside.grown;
        stay = λ i s bound e. beside.stay i s bound (kept i s bound e);
        means = λ fits indexed.
            let fits_a = Extends-Fits beside.grown fits in
            (
              omega (arith, here),
              (
                below.now,
                beside.stay cid below.now (omega arith) below.at,
                below.name_kept,
                below.parent_kept,
              ),
              BodyMeans-Stay names a.states more.0.states beside.grown cid b
                  (λ i s bound e. beside.stay i s (omega arith) e) (below.means fits_a indexed),
              beside.means fits (below.pass.grown.indexed indexed),
            );
      })
