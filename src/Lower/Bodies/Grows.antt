-- ===== src/Lower/Bodies/Grows.antt =====
-- How the states grow when hsmc-macros/src/ir.rs lowers the states below a body.
pub mod Below
use Prim.Native.Nat.{max}
use Prim.Native.String.{String}
use hsmc.Input.{StateBody, StateDecls, body, nil, cons}
use hsmc.Ir.{Ir}
use hsmc.Lower.Bodies.Forest.{Frame, frames, IsForest, length-frames, get_elem?-append_some}
use hsmc.Lower.Bodies.Keeps.{IsOpen, IsTimed, Keeps}
use hsmc.Prelude.{
  ℕ, ◌+◌, ◌≡◌, ◌∙◌, ap, sym, subst, refl, some, List, [], ◌∷◌, ◌++◌, map, append_assoc, append-nil,
  length, length-append, get_elem?, All, arith,
}

-- How deep the states below a body are nested, and how many there are.
unfoldable mutual
  pub nesting : StateBody → ℕ
  nesting (body items kids) = deepest kids

  pub deepest : StateDecls → ℕ
  deepest nil = 0
  deepest (cons name b rest) = max (1 + nesting b) (deepest rest)

unfoldable mutual
  pub state_count : StateBody → ℕ
  state_count (body items kids) = child_count kids

  pub child_count : StateDecls → ℕ
  child_count nil = 0
  child_count (cons name b rest) = (1 + state_count b) + child_count rest

-- The states grow by `count` that hang in the forest and go by `names`; their targets stay names.
pub record Grows (ir ir' : Ir) (count : ℕ) (names : List String) : Type 0 where
  pub more : List Frame
  pub framed : frames ir'.states ≡ frames ir.states ++ more
  pub size : length more ≡ count
  pub named : map (λ (f : Frame). f.name) more ≡ names
  pub forest : IsForest (frames ir'.states)
  pub timed : IsTimed ir → IsTimed ir'
  pub open_states : All IsOpen ir.states → All IsOpen ir'.states

map-append : {A B : Type 0} (f : A → B) (xs ys : List A) → map f (xs ++ ys) ≡ map f xs ++ map f ys
map-append f [] ys = refl
map-append f (x ∷ xs) ys = ap (λ l. f x ∷ l) (map-append f xs ys)

pub Grows-trans :
    {a : Ir} {xs : List String} {b c : Ir} {n m : ℕ} {ys : List String}
    → Grows a b n xs
    → Grows b c m ys
    → Grows a c (n + m) (xs ++ ys)
Grows-trans {a} {xs} h k = record {
  more = h.more ++ k.more;
  framed = k.framed ∙ ap (λ l. l ++ k.more) h.framed ∙ append_assoc (frames a.states) h.more k.more;
  size = omega (arith, length-append h.more k.more, h.size, k.size);
  named =
      map-append (λ (f : Frame). f.name) h.more k.more
      ∙ ap (λ l. l ++ map (λ (f : Frame). f.name) k.more) h.named
      ∙ ap (λ l. xs ++ l) k.named;
  forest = k.forest;
  timed = λ t. k.timed (h.timed t);
  open_states = λ o. k.open_states (h.open_states o);
}

pub Keeps-Grows : {a b : Ir} → IsForest (frames a.states) → Keeps a b → Grows a b 0 []
Keeps-Grows {a} forest k = record {
  more = [];
  named = refl;
  framed = k.framed ∙ sym (append-nil (frames a.states));
  size = refl;
  forest = subst IsForest (sym k.framed) forest;
  timed = k.timed;
  open_states = k.open_states;
}

-- The states before it are those it had.
pub Grows-at :
    {a b : Ir} {n : ℕ} {xs : List String} (g : Grows a b n xs) (s : ℕ) {f : Frame}
    → get_elem? (frames a.states) s ≡ some f
    → get_elem? (frames b.states) s ≡ some f
Grows-at {a} g s h =
    ap (λ l. get_elem? l s) g.framed ∙ get_elem?-append_some (frames a.states) g.more s h

pub Grows-length :
    {a b : Ir} {n : ℕ} {xs : List String} → Grows a b n xs → length b.states ≡ length a.states + n
Grows-length {a} {b} g = omega (
  arith,
  length-frames b.states,
  length-frames a.states,
  ap length g.framed,
  length-append (frames a.states) g.more,
  g.size,
)
