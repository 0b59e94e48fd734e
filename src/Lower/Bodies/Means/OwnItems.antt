-- ===== src/Lower/Bodies/Means/OwnItems.antt =====
-- `lower_items` of hsmc-macros/src/ir.rs: the state has the items of its body.
use Prim.Native.String.{String}
use hsmc.Input.{Items}
use hsmc.Ir.{Ir, StateIr}
use hsmc.Lower.{edit_state}
use hsmc.Lower.Bodies.{intern_all, lower_handlers, lower_items}
use hsmc.Lower.Bodies.Interned.{tables, Fits, Extends-trans, Extends-Fits, IsIndexed}
use hsmc.Lower.Bodies.Means.{Stand, HandlersMean, Stand-Prefix, HandlersMean-Extends}
use hsmc.Prelude.{ℕ, ◌≡◌, ◌∙◌, ap, sym, subst, refl, some, List, get_elem?}
use hsmc.Refusal.{accepted, >>=-eq-accepted}
use hsmc.Lower.Bodies.Means.Passes.{
  Pass, Pass-trans, Pass-same, edit_state-Pass, intern_all-AreActions,
}
use hsmc.Lower.Bodies.Means.Handlers.{lower_handlers-Means}

-- The state `sid` when its items are written.
pub record HasItems (names : List String) (sid : ℕ) (items : Items) (ir : Ir) (st : StateIr)
    (ir' : Ir) : Type 0 where
  pub pass : Pass sid ir ir'
  pub now : StateIr
  pub at : get_elem? ir'.states sid ≡ some now
  pub name_kept : now.name ≡ st.name
  pub parent_kept : now.parent ≡ st.parent
  pub default_kept : now.default_target_ident ≡ st.default_target_ident
  pub means :
      Fits (tables ir')
      → IsIndexed ir.duration_triggers
      → Stand (tables ir').actions now.entries items.entries
        × Stand (tables ir').actions now.exits items.exits
        × HandlersMean (tables ir') names items.handlers now.handlers
        × (now.durings ≡ items.durings)

pub lower_items-HasItems :
    (names : List String) (sid : ℕ) (items : Items) (ir : Ir) (st : StateIr) {ir' : Ir}
    → get_elem? ir.states sid ≡ some st
    → lower_items names sid items ir ≡ accepted ir'
    → HasItems names sid items ir st ir'
unfolding lower_items
lower_items-HasItems names sid items ir st {ir'} at h =
    let (a, entries, h1) = >>=-eq-accepted (intern_all items.entries ir) _ h in
    let (b, exits, h2) = >>=-eq-accepted (intern_all items.exits a.0) _ h1 in
    let put = λ (s : StateIr). record s { entries = a.1; exits = b.1 } in
    let (c, written, h3) = >>=-eq-accepted (edit_state sid put b.0) _ h2 in
    let (d, handlers, h4) = >>=-eq-accepted (lower_handlers names sid items.handlers c) _ h3 in
    let put_last = λ (s : StateIr). record s { handlers = d.1; durings = items.durings } in
    let ins = intern_all-AreActions items.entries ir entries in
    let outs = intern_all-AreActions items.exits a.0 exits in
    let at_b : get_elem? b.0.states sid ≡ some st =
      ap (λ l. get_elem? l sid) (outs.same_states ∙ ins.same_states) ∙ at in
    let interned : Pass sid ir b.0 =
      Pass-same (Extends-trans ins.grown outs.grown) (outs.same_states ∙ ins.same_states) in
    let (pass_c, at_c) = edit_state-Pass sid put b.0 written at_b in
    let (keeps, mean) = lower_handlers-Means names sid items.handlers c (put st) at_c handlers in
    let (pass_last, at_last) = edit_state-Pass sid put_last d.0 h4 keeps.at in
    let to_d = Extends-trans pass_c.grown keeps.pass.grown in
    let kept = keeps.kept in
    record {
      pass = Pass-trans interned (Pass-trans pass_c (Pass-trans keeps.pass pass_last));
      now = put_last keeps.now;
      at = at_last;
      name_kept = ap (λ (s : StateIr). s.name) kept;
      parent_kept = ap (λ (s : StateIr). s.parent) kept;
      default_kept = ap (λ (s : StateIr). s.default_target_ident) kept;
      means = λ fits indexed.
          let fits_d = Extends-Fits pass_last.grown fits in
          let fits_b = Extends-Fits to_d fits_d in
          let fits_a = Extends-Fits outs.grown fits_b in
          let to_end = Extends-trans to_d pass_last.grown in
          (
            subst (λ is. Stand (tables ir').actions is items.entries)
                (sym (ap (λ (s : StateIr). s.entries) kept))
                (Stand-Prefix (Extends-trans outs.grown to_end) a.1 items.entries
                  (ins.stand fits_a)),
            subst (λ is. Stand (tables ir').actions is items.exits)
                (sym (ap (λ (s : StateIr). s.exits) kept))
                (Stand-Prefix to_end b.1 items.exits (outs.stand fits_b)),
            HandlersMean-Extends names pass_last.grown items.handlers d.1
                (mean fits_d ((Extends-trans interned.grown pass_c.grown).indexed indexed)),
            refl,
          );
    }
