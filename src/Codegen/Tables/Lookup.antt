-- ===== src/Codegen/Tables/Lookup.antt =====
-- The range tables of hsmc-macros/src/codegen.rs give back, at `from * n + to`, the two paths of the
-- transition, and at `from` the exit path of a termination.
use mathlib.Core.Path.{ap₂}
use hsmc.Ir.{StateIr, parent_of, depth_of, as_u16}
use hsmc.Codegen.Walks.{compute_one}
use hsmc.Prelude.{
  >>=-eq-some, List, ℕ, ◌≤◌, ◌≡◌, ◌++◌, length, some, slice, ◌∷◌, [], arith, append-nil,
  length-append, slice-append, Option, ◌∙◌, subst, append_assoc, ap, get_elem?, sym, suc, slice?,
  slice-last, slice?-eq, ◌<◌, ◌+◌, refl, zero, ◌*◌, get_elem?-append, get_elem?-append_right,
}
use hsmc.Codegen.Walks.Tree.{IsTree}
use hsmc.Codegen.Walks.Correct.{Moves, compute_one_lem}
use hsmc.Codegen.Tables.{
  no_blob, PathTable, merge, compute_transition_paths, path_table, row, rows, append_pair,
}
use hsmc.Codegen.Tables.Slices.{Cuts, Found, for_pairs-Cuts}

-- `range` cuts the pairs of paths out of the merged data, in order.
abbrev Packed : List ℕ → List (ℕ × ℕ × ℕ) → List (List ℕ) → List (List ℕ) → Type 0
Packed data_ [] [] [] = Unit
Packed data_ ((s, m, e) ∷ range) (x ∷ xs) (y ∷ ys) =
    (s ≤ m)
    × (m ≤ e)
    × (e ≤ length data_)
    × (slice s m data_ ≡ x)
    × (slice m e data_ ≡ y)
    × Packed data_ range xs ys
Packed data_ _ _ _ = ⊥

Packed-append :
    (d more : List ℕ) (range : List (ℕ × ℕ × ℕ)) (xs ys : List (List ℕ))
    → Packed d range xs ys
    → Packed (d ++ more) range xs ys
Packed-append d more [] [] [] h = tt
Packed-append d more ((s, m, e) ∷ range) (x ∷ xs) (y ∷ ys) h = (
  h.0,
  h.1,
  omega (arith, length-append d more, h.2),
  slice-append s m d more h.0 (omega (arith, h.1, h.2)) ∙ h.3,
  slice-append m e d more h.1 h.2 ∙ h.4,
  Packed-append d more range xs ys h.5,
)
Packed-append d more _ _ _ h = absurd h

Packed-snoc :
    (d : List ℕ) (s m e : ℕ) (range : List (ℕ × ℕ × ℕ)) (xs ys : List (List ℕ)) (x y : List ℕ)
    → Packed d range xs ys
    → s ≤ m
    → m ≤ e
    → e ≤ length d
    → slice s m d ≡ x
    → slice m e d ≡ y
    → Packed d (range ++ (s, m, e) ∷ []) (xs ++ x ∷ []) (ys ++ y ∷ [])
Packed-snoc d s m e [] [] [] x y h a b c p q = (a, b, c, p, q, tt)
Packed-snoc d s m e ((s', m', e') ∷ range) (x' ∷ xs) (y' ∷ ys) x y h a b c p q =
    (h.0, h.1, h.2, h.3, h.4, Packed-snoc d s m e range xs ys x y h.5 a b c p q)
Packed-snoc d s m e _ _ _ x y h a b c p q = absurd h

pub append_pair-eq :
    (t : PathTable) {t' : PathTable} (x y : List ℕ)
    → append_pair x y t ≡ some t'
    → t' ≡ record {
      path_data = (t.path_data ++ x) ++ y;
      path_range =
          t.path_range
          ++ (length t.path_data, length (t.path_data ++ x), length ((t.path_data ++ x) ++ y)) ∷ [];
    }
unfolding append_pair
append_pair-eq t x y h = ground arith

append_pair-Packed :
    (t t' : PathTable) (xs ys : List (List ℕ)) (x y : List ℕ)
    → append_pair x y t ≡ some t'
    → Packed t.path_data t.path_range xs ys
    → Packed t'.path_data t'.path_range (xs ++ x ∷ []) (ys ++ y ∷ [])
append_pair-Packed t t' xs ys x y e h =
    let d = t.path_data in
    subst (λ (c : PathTable). Packed c.path_data c.path_range (xs ++ x ∷ []) (ys ++ y ∷ []))
      (sym (append_pair-eq t x y e))
      (Packed-snoc ((d ++ x) ++ y) (length d) (length (d ++ x)) (length ((d ++ x) ++ y))
        t.path_range xs ys x y
        (Packed-append (d ++ x) y t.path_range xs ys (Packed-append d x t.path_range xs ys h))
        (omega (arith, length-append d x)) (omega (arith, length-append (d ++ x) y)) (omega arith)
        (slice-append (length d) (length (d ++ x)) (d ++ x) y (omega (arith, length-append d x))
            (omega arith)
          ∙ slice-last d x)
        (slice-last (d ++ x) y))

merge-Packed :
    (ed nd : List ℕ) (er nr : List (ℕ × ℕ)) (t : PathTable) {t' : PathTable}
    (xs ys xs' ys' : List (List ℕ))
    → merge ed nd er nr t ≡ some t'
    → Cuts ed er xs'
    → Cuts nd nr ys'
    → length xs' ≡ length ys'
    → Packed t.path_data t.path_range xs ys
    → Packed t'.path_data t'.path_range (xs ++ xs') (ys ++ ys')
unfolding merge
merge-Packed ed nd [] nr t {t'} xs ys [] [] h cx cy len k =
    let same : t ≡ t' = cc in rw (← same, append-nil, append-nil) k
merge-Packed ed nd ((es, ee) ∷ er) ((ns, ne) ∷ nr) t xs ys (x ∷ xs') (y ∷ ys') h cx cy len k =
    let (t1, one, rest) = >>=-eq-some (append_pair (slice es ee ed) (slice ns ne nd) t) _ h in
    let e : append_pair x y t ≡ some t1 = rw (← cx.2, ← cy.2) one in
    let all =
      merge-Packed ed nd er nr t1 (xs ++ x ∷ []) (ys ++ y ∷ []) xs' ys' rest cx.3 cy.3 (omega arith)
        (append_pair-Packed t t1 xs ys x y e k) in
    rw (append_assoc xs, append_assoc ys) at all
merge-Packed ed nd ((es, ee) ∷ er) [] t xs ys (x ∷ xs') (y ∷ ys') h cx cy len k = absurd cy
merge-Packed ed nd (r ∷ er) nr t xs ys [] ys' h cx cy len k = absurd cx
merge-Packed ed nd [] nr t xs ys (x ∷ xs') ys' h cx cy len k = absurd cx
merge-Packed ed nd er nr t xs ys [] (y ∷ ys') h cx cy len k = absurd (omega arith)
merge-Packed ed nd er nr t xs ys (x ∷ xs') [] h cx cy len k = absurd (omega arith)

length-Found :
    (one : ℕ → ℕ → Option (List ℕ × List ℕ)) (pairs : List (ℕ × ℕ)) (xs ys : List (List ℕ))
    → Found one pairs xs ys
    → length xs ≡ length ys
length-Found one [] [] [] h = refl
length-Found one (p ∷ pairs) (x ∷ xs) (y ∷ ys) h = ap suc (length-Found one pairs xs ys h.1)
length-Found one _ _ _ h = absurd h

-- The entry at one index.
Packed-at :
    (one : ℕ → ℕ → Option (List ℕ × List ℕ)) (d : List ℕ) (range : List (ℕ × ℕ × ℕ))
    (pairs : List (ℕ × ℕ)) (xs ys : List (List ℕ)) (i from to : ℕ)
    → Found one pairs xs ys
    → Packed d range xs ys
    → get_elem? pairs i ≡ some (from, to)
    → (s m e : ℕ) × (get_elem? range i ≡ some (s, m, e))
      × (slice? s m d ≡ some (slice s m d))
      × (slice? m e d ≡ some (slice m e d))
      × (one from to ≡ some (slice s m d, slice m e d))
Packed-at one d ((s, m, e) ∷ range) ((a, b) ∷ pairs) (x ∷ xs) (y ∷ ys) zero from to f k at =
    let ea : a ≡ from = cc in
    let eb : b ≡ to = cc in
    (
      s,
      m,
      e,
      refl,
      slice?-eq s m d k.0 (omega (arith, k.1, k.2)),
      slice?-eq m e d k.1 k.2,
      rw (← ea, ← eb, k.3, k.4) f.0,
    )
Packed-at one d (r ∷ range) (p ∷ pairs) (x ∷ xs) (y ∷ ys) (suc i) from to f k at =
    Packed-at one d range pairs xs ys i from to f.1 k.5 at
Packed-at one d range [] xs ys i from to f k at = cc
Packed-at one d [] (p ∷ pairs) (x ∷ xs) (y ∷ ys) i from to f k at = absurd k
Packed-at one d range (p ∷ pairs) [] ys i from to f k at = absurd f
Packed-at one d range (p ∷ pairs) (x ∷ xs) [] i from to f k at = absurd f

-- The pairs stand in row-major order.
length-row : (k from to : ℕ) → length (row k from to) ≡ k
unfolding row
length-row zero from to = refl
length-row (suc k) from to = ap suc (length-row k from (to + 1))

row-at : (k from to i : ℕ) → i < k → get_elem? (row k from to) i ≡ some (from, to + i)
unfolding row
row-at zero from to i h = absurd (omega arith)
row-at (suc k) from to zero h =
    let same : to ≡ to + 0 = omega arith in ap (λ t. some (from, t)) same
row-at (suc k) from to (suc i) h =
    let same : to + 1 + i ≡ to + suc i = omega arith in
    row-at k from (to + 1) i (omega arith) ∙ ap (λ t. some (from, t)) same

pub rows-at :
    (n k from i to : ℕ)
    → i < k
    → to < n
    → get_elem? (rows n k from) (i * n + to) ≡ some (from + i, to)
unfolding rows
rows-at n zero from i to h h' = absurd (omega arith)
rows-at n (suc k) from zero to h h' =
    let at : 0 * n + to ≡ to = omega arith in
    let same : from ≡ from + 0 = omega arith in
    rw at (
      get_elem?-append (row n from 0) (rows n k (from + 1)) to (omega (arith, length-row n from 0))
      ∙ row-at n from 0 to h'
      ∙ ap₂ (λ (f t : ℕ). some (f, t)) same (omega arith))
rows-at n (suc k) from (suc i) to h h' =
    let at : suc i * n + to ≡ length (row n from 0) + (i * n + to) =
      omega (arith, length-row n from 0) in
    let same : from + 1 + i ≡ from + suc i = omega arith in
    rw at (
      get_elem?-append_right (row n from 0) (rows n k (from + 1)) (i * n + to)
      ∙ rows-at n k (from + 1) i to (omega arith) h'
      ∙ ap (λ f. some (f, to)) same)

module _ (states : List StateIr)
    (tree : IsTree (length states) (parent_of states) (depth_of states))
    (fits : length states < 65536) where
  -- For a tree of fewer than 65536 states whose tables are built: the entry of `__PATH_RANGE` at
  -- `from * n + to` is there, its two ranges lie in `__PATH_DATA`, and they cut out the paths that
  -- `compute_one` finds, which lead from the active path of `from` to that of `to`.
  pub path_table-at :
      {t : PathTable} (from to : ℕ)
      → path_table states ≡ some t
      → from < length states
      → to < length states
      → (s m e : ℕ) × (get_elem? t.path_range (from * length states + to) ≡ some (s, m, e))
        × (slice? s m t.path_data ≡ some (slice s m t.path_data))
        × (slice? m e t.path_data ≡ some (slice m e t.path_data))
        × (compute_one (parent_of states) (depth_of states) (length states) from to
            ≡ some (slice s m t.path_data, slice m e t.path_data))
        × Moves (parent_of states) from to (slice s m t.path_data) (slice m e t.path_data)
  unfolding path_table compute_transition_paths
  path_table-at {t} from to h hf ht =
      let n = length states in
      let (u, made, merged) = >>=-eq-some (compute_transition_paths states) _ h in
      let (xs, ys, found, cx, cy) =
        for_pairs-Cuts (parent_of states) (depth_of states) n (rows (as_u16 n) (as_u16 n) 0)
          (record { exits = no_blob; enters = no_blob }) [] [] made tt tt in
      let same : as_u16 n ≡ n = omega arith in
      let all =
        merge-Packed u.exits.blob u.enters.blob u.exits.range u.enters.range
          (record { path_data = []; path_range = [] }) [] [] xs ys merged cx cy
          (length-Found _ _ xs ys found) tt in
      let at : get_elem? (rows (as_u16 n) (as_u16 n) 0) (from * n + to) ≡ some (from, to) =
        rw same (rows-at n n 0 from to hf ht ∙ ap (λ f. some (f, to)) (omega arith)) in
      let (s, m, e, r, c, d, one) =
        Packed-at _ t.path_data t.path_range _ xs ys (from * n + to) from to found all at in
      let (x, y, one', moves) = compute_one_lem tree n from to (omega arith) hf ht in
      let ex : x ≡ slice s m t.path_data = cc in
      let ey : y ≡ slice m e t.path_data = cc in (s, m, e, r, c, d, one, rw (← ex, ← ey) moves)
