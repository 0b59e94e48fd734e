-- ===== src/Lower/Bodies/Forest.antt =====
-- The ids, names, parents and depths of the states that hsmc-macros/src/ir.rs has built so far.
use Prim.Native.String.{String}
use hsmc.Codegen.Walks.Tree.{IsTree}
use hsmc.Ir.{StateIr, parent_of, depth_of}
use hsmc.Prelude.{
  ℕ, zero, suc, ◌+◌, ◌<◌, ◌≡◌, ◌∙◌, ap, sym, refl, ◌⊎◌, inl, inr, Option, none, some, Option-cases,
  List, [], ◌∷◌, ◌++◌, map, length, get_elem?, get_elem?-some, get_elem?-range, get_elem?-append,
  set, arith,
}

-- What the lowering fixes of a state when it allocates it.
pub record Frame : Type 0 where
  pub id : ℕ
  pub name : String
  pub parent : Option ℕ
  pub depth : ℕ

abbrev pub frame : StateIr → Frame
frame st = record { id = st.id; name = st.name; parent = st.parent; depth = st.depth }

abbrev pub frames : List StateIr → List Frame
frames states = map frame states

-- A frame that is not the first stands one below an earlier one.
abbrev pub Hangs : List Frame → ℕ → Frame → Type 0
Hangs fs s f =
    (q : ℕ) × (p : Frame) × (f.parent ≡ some q)
    × (q < s)
    × (get_elem? fs q ≡ some p)
    × (f.depth ≡ p.depth + 1)

-- The frames of a forest with one root, which comes first; every id is an index.
pub record IsForest (fs : List Frame) : Type 0 where
  pub name : String
  pub root : get_elem? fs 0 ≡ some (record { id = 0; name = name; parent = none; depth = 0 })
  pub indexed : (s : ℕ) (f : Frame) → get_elem? fs s ≡ some f → f.id ≡ s
  pub hangs : (s : ℕ) (f : Frame) → get_elem? fs (suc s) ≡ some f → Hangs fs (suc s) f

pub length-frames : (states : List StateIr) → length (frames states) ≡ length states
length-frames [] = refl
length-frames (st ∷ states) = ap suc (length-frames states)

pub frames-append : (xs ys : List StateIr) → frames (xs ++ ys) ≡ frames xs ++ frames ys
frames-append [] ys = refl
frames-append (x ∷ xs) ys = ap (λ l. frame x ∷ l) (frames-append xs ys)

pub frames-at :
    (states : List StateIr) (s : ℕ) {st : StateIr}
    → get_elem? states s ≡ some st
    → get_elem? (frames states) s ≡ some (frame st)
frames-at [] s h = cc
frames-at (x ∷ xs) zero h =
    ap
      (λ (o : Option StateIr). elim o as (λ _. Option Frame) [
        | none ↦ none
        | some y ↦ some (frame y)
      ])
      h
frames-at (x ∷ xs) (suc s) h = frames-at xs s h

pub frames-names :
    (states : List StateIr)
    → map (λ (f : Frame). f.name) (frames states) ≡ map (λ (st : StateIr). st.name) states
frames-names [] = refl
frames-names (st ∷ states) = ap (λ l. st.name ∷ l) (frames-names states)

-- A write that keeps the frame of a state keeps the frames.
pub frames-set :
    (states : List StateIr) (s : ℕ) (old new : StateIr)
    → get_elem? states s ≡ some old
    → frame new ≡ frame old
    → frames (set states s new) ≡ frames states
frames-set [] s old new h e = cc
frames-set (x ∷ xs) zero old new h e =
    let same : x ≡ old = cc in ap (λ f. f ∷ frames xs) (e ∙ ap frame (sym same))
frames-set (x ∷ xs) (suc s) old new h e = ap (λ l. frame x ∷ l) (frames-set xs s old new h e)

pub get_elem?-snoc :
    {A : Type 0} (xs : List A) (a : A) (i : ℕ) {b : A}
    → get_elem? (xs ++ a ∷ []) i ≡ some b
    → (get_elem? xs i ≡ some b) ⊎ ((i ≡ length xs) × (a ≡ b))
get_elem?-snoc [] a zero h = inr (refl, cc)
get_elem?-snoc [] a (suc i) h = cc
get_elem?-snoc (x ∷ xs) a zero h = inl h
get_elem?-snoc (x ∷ xs) a (suc i) h = elim (get_elem?-snoc xs a i h) [
  | inl e ↦ inl e
  | inr (e, same) ↦ inr (ap suc e, same)
]

pub get_elem?-append_some :
    {A : Type 0} (xs ys : List A) (i : ℕ) {a : A}
    → get_elem? xs i ≡ some a
    → get_elem? (xs ++ ys) i ≡ some a
get_elem?-append_some xs ys i h = get_elem?-append xs ys i (get_elem?-range xs i h) ∙ h

-- A state that is allocated below a state of the forest joins it.
pub IsForest-snoc :
    (fs : List Frame) (name : String) (q : ℕ) (p : Frame)
    → IsForest fs
    → get_elem? fs q ≡ some p
    → IsForest
        (fs ++ record { id = length fs; name = name; parent = some q; depth = p.depth + 1 } ∷ [])
IsForest-snoc fs name q p h at =
    let new : Frame = record {
      id = length fs;
      name = name;
      parent = some q;
      depth = p.depth + 1;
    } in
    record {
      name = h.name;
      root = get_elem?-append_some fs (new ∷ []) 0 h.root;
      indexed = λ s f e. elim (get_elem?-snoc fs new s e) [
        | inl old ↦ h.indexed s f old
        | inr (last, same) ↦ sym (ap (λ (g : Frame). g.id) same) ∙ sym last
      ];
      hangs = λ s f e. elim (get_elem?-snoc fs new (suc s) e) [
        | inl old ↦
            let (q', p', e', lt, at', d) = h.hangs s f old in
            (q', p', e', lt, get_elem?-append_some fs (new ∷ []) q' at', d)
        | inr (last, same) ↦ (
          q,
          p,
          sym (ap (λ (g : Frame). g.parent) same),
          omega (arith, last, get_elem?-range fs q at),
          get_elem?-append_some fs (new ∷ []) q at,
          sym (ap (λ (g : Frame). g.depth) same),
        )
      ];
    }

abbrev parent_at : Option Frame → Option ℕ
parent_at none = none
parent_at (some f) = f.parent

abbrev depth_at : Option Frame → ℕ
depth_at none = 0
depth_at (some f) = f.depth

parent_of-frames :
    (states : List StateIr) (s : ℕ) → parent_of states s ≡ parent_at (get_elem? (frames states) s)
unfolding parent_of
parent_of-frames [] s = refl
parent_of-frames (x ∷ xs) zero = refl
parent_of-frames (x ∷ xs) (suc s) = parent_of-frames xs s

pub depth_of-frames :
    (states : List StateIr) (s : ℕ) → depth_of states s ≡ depth_at (get_elem? (frames states) s)
unfolding depth_of
depth_of-frames [] s = refl
depth_of-frames (x ∷ xs) zero = refl
depth_of-frames (x ∷ xs) (suc s) = depth_of-frames xs s

-- A state that has a parent has a frame.
framed :
    (states : List StateIr) (s p : ℕ)
    → parent_of states s ≡ some p
    → (f : Frame) × (get_elem? (frames states) s ≡ some f) × (f.parent ≡ some p)
framed states s p e = elim (Option-cases (get_elem? (frames states) s)) [
  | inl n ↦ cc (parent_of-frames states s, ap parent_at n)
  | inr (f, at) ↦ (f, at, cc (parent_of-frames states s, ap parent_at at))
]

-- What hangs, by its parent.
hung :
    (states : List StateIr)
    → IsForest (frames states)
    → (s p : ℕ) → parent_of states s ≡ some p
    → (p < s) × (depth_of states s ≡ depth_of states p + 1)
hung states h zero p e = cc (parent_of-frames states 0, ap parent_at h.root)
hung states h (suc s) p e =
    let (f, at, up) = framed states (suc s) p e in
    let (q, above, e', lt, at', d) = h.hangs s f at in
    let same : q ≡ p = cc in
    (
      omega (arith, same),
      depth_of-frames states (suc s)
          ∙ ap depth_at at
          ∙ d
          ∙ ap (λ (k : ℕ). k + 1)
              (sym (ap depth_at at') ∙ sym (depth_of-frames states q) ∙ ap (depth_of states) same),
    )

unparented :
    (states : List StateIr)
    → IsForest (frames states)
    → (s : ℕ) → s < length states
    → parent_of states s ≡ none
    → s ≡ 0
unparented states h zero b e = refl
unparented states h (suc s) b e =
    let (st, here) = get_elem?-some states (suc s) b in
    let at = frames-at states (suc s) here in
    let (q, above, e', lt, at', d) = h.hangs s (frame st) at in
    cc (parent_of-frames states (suc s), ap parent_at at)

-- The frames of a forest are those of a tree.
pub IsForest-IsTree :
    (states : List StateIr)
    → IsForest (frames states)
    → IsTree (length states) (parent_of states) (depth_of states)
IsForest-IsTree states h = record {
  rooted = unparented states h;
  top = parent_of-frames states 0 ∙ ap parent_at h.root;
  smaller = λ s p e. (hung states h s p e).0;
  deeper = λ s p e. (hung states h s p e).1;
  shallow = depth_of-frames states 0 ∙ ap depth_at h.root;
}
