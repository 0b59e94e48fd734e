-- ===== src/Codegen/Checks/Fits.antt =====
-- The ranges of the tables that hsmc-macros/src/codegen.rs computes lie in their data, and what lies in them
-- is ids of states.
use mathlib.Core.List.{reverse-reverse}
use hsmc.Codegen.Checks.Correct.{InData, InBlob}
use hsmc.Codegen.Tables.{
  Blob, extend, TransitionPathTables, PathTable, for_pairs, row, rows, append_pair, merge,
  for_states,
}
use hsmc.Codegen.Tables.Slices.{extend-eq}
use hsmc.Codegen.Tables.Lookup.{append_pair-eq}
use hsmc.Codegen.Walks.{compute_one, terminate_walk}
use hsmc.Codegen.Walks.Correct.{compute_one_lem}
use hsmc.Codegen.Walks.Reach.{terminate_walk_lem}
use hsmc.Codegen.Walks.Tree.{IsTree, Above-le, chain, chain-Above}
use hsmc.Prelude.{
  ℕ, zero, suc, ◌+◌, ◌<◌, ◌≤◌, ◌≡◌, sym, subst, Option, some, >>=-eq-some, List, [], ◌∷◌, ◌++◌,
  reverse, length, length-append, take, drop, slice, All, All-append, All-map, All-drop_right,
  All-reverse, arith,
}

-- Ids of states, in a list.
abbrev pub Ids : ℕ → List ℕ → Type 0
Ids n xs = All (λ x. x < n) xs

Ids-drop : (n k : ℕ) (xs : List ℕ) → Ids n xs → Ids n (drop k xs)
Ids-drop n zero xs h = h
Ids-drop n (suc k) [] h = h
Ids-drop n (suc k) (x ∷ xs) h = Ids-drop n k xs h.1

Ids-take : (n k : ℕ) (xs : List ℕ) → Ids n xs → Ids n (take k xs)
Ids-take n zero xs h = tt
Ids-take n (suc k) [] h = tt
Ids-take n (suc k) (x ∷ xs) h = (h.0, Ids-take n k xs h.1)

Ids-slice : (n s e : ℕ) (xs : List ℕ) → Ids n xs → Ids n (slice s e xs)
Ids-slice n s e xs h = Ids-take n _ (drop s xs) (Ids-drop n s xs h)

Ids-append : (n : ℕ) (xs ys : List ℕ) → Ids n xs → Ids n ys → Ids n (xs ++ ys)
Ids-append n xs ys h k = All-append (λ x. x < n) xs ys h k

-- A blob of state ids whose ranges lie in it.
pub record BlobFits (n : ℕ) (b : Blob) : Type 0 where
  pub ids : Ids n b.blob
  pub ranges : All (InBlob (length b.blob)) b.range

InBlob-grow : (a c : ℕ) (rs : List (ℕ × ℕ)) → a ≤ c → All (InBlob a) rs → All (InBlob c) rs
InBlob-grow a c rs le h = All-map (λ r k. (k.0, omega (arith, k.1))) rs h

extend-BlobFits :
    (n : ℕ) (b : Blob) {b' : Blob} (path : List ℕ)
    → extend b path ≡ some b'
    → Ids n path
    → BlobFits n b
    → BlobFits n b'
extend-BlobFits n b path e h fits =
    let longer = length-append b.blob path in
    subst (BlobFits n) (sym (extend-eq b path e)) (record {
      ids = Ids-append n b.blob path fits.ids h;
      ranges =
          All-append (InBlob (length (b.blob ++ path))) b.range _
            (InBlob-grow (length b.blob) (length (b.blob ++ path)) b.range (omega (arith, longer))
              fits.ranges)
            ((omega (arith, longer), omega arith), tt);
    })

module _ {n : ℕ} {parent : ℕ → Option ℕ} {depth : ℕ → ℕ} (tree : IsTree n parent depth) where
  chain-Ids : (s : ℕ) → s < n → Ids n (chain parent s)
  chain-Ids s lt =
      All-map (λ a above. omega (arith, Above-le tree above)) (chain parent s) (chain-Above tree s)

  -- The paths of a transition hold states.
  compute_one-Ids :
      (from to : ℕ) {x y : List ℕ}
      → from < n
      → to < n
      → compute_one parent depth n from to ≡ some (x, y)
      → Ids n x × Ids n y
  compute_one-Ids from to {x} {y} hf ht e =
      let (exit, enter, found, moves) = compute_one_lem tree n from to (omega arith) hf ht in
      let out : Ids n exit =
        All-drop_right (λ s. s < n) exit moves.kept
          (subst (Ids n) moves.leaves (chain-Ids from hf)) in
      let turned : Ids n (reverse enter) =
        All-drop_right (λ s. s < n) (reverse enter) moves.kept
          (subst (Ids n) moves.arrives (chain-Ids to ht)) in
      let into : Ids n enter =
        subst (Ids n) (reverse-reverse enter) (All-reverse (λ s. s < n) (reverse enter) turned) in
      let ex : exit ≡ x = cc in
      let ey : enter ≡ y = cc in (subst (Ids n) ex out, subst (Ids n) ey into)

  pub for_pairs-Ids :
      (pairs : List (ℕ × ℕ)) (t : TransitionPathTables) {t' : TransitionPathTables}
      → All (λ (q : ℕ × ℕ). (q.0 < n) × (q.1 < n)) pairs
      → for_pairs parent depth n pairs t ≡ some t'
      → Ids n t.exits.blob
      → Ids n t.enters.blob
      → Ids n t'.exits.blob × Ids n t'.enters.blob
  unfolding for_pairs
  for_pairs-Ids [] t {t'} q h hx hy =
      let same : t ≡ t' = cc in
      subst (λ (u : TransitionPathTables). Ids n u.exits.blob × Ids n u.enters.blob) same (hx, hy)
  for_pairs-Ids ((from, to) ∷ rest) t q h hx hy =
      let ((x, y), found, h1) = >>=-eq-some (compute_one parent depth n from to) _ h in
      let (exits', ex, h2) = >>=-eq-some (extend t.exits x) _ h1 in
      let (enters', ey, h3) = >>=-eq-some (extend t.enters y) _ h2 in
      let (px, py) = compute_one-Ids from to q.0.0 q.0.1 found in
      for_pairs-Ids rest (record { exits = exits'; enters = enters' }) q.1 h3
        (subst (λ (b : Blob). Ids n b.blob) (sym (extend-eq t.exits x ex))
          (Ids-append n t.exits.blob x hx px))
        (subst (λ (b : Blob). Ids n b.blob) (sym (extend-eq t.enters y ey))
          (Ids-append n t.enters.blob y hy py))

  pub for_states-BlobFits :
      (k from : ℕ) (b : Blob) {b' : Blob}
      → from + k ≤ n
      → for_states parent n k from b ≡ some b'
      → BlobFits n b
      → BlobFits n b'
  unfolding for_states
  for_states-BlobFits zero from b hf h fits = let same : b ≡ _ = cc in subst (BlobFits n) same fits
  for_states-BlobFits (suc k) from b hf h fits =
      let (path, walked, h1) = >>=-eq-some (terminate_walk parent n from) _ h in
      let (b1, ext, h2) = >>=-eq-some (extend b path) _ h1 in
      let same : path ≡ chain parent from = cc (terminate_walk_lem tree n from (omega arith)) in
      for_states-BlobFits k (from + 1) b1 (omega arith) h2 (
        extend-BlobFits n b path ext (subst (Ids n) (sym same) (chain-Ids from (omega arith))) fits)

-- A merged table of state ids whose ranges lie in its data.
pub record TableFits (n : ℕ) (t : PathTable) : Type 0 where
  pub ids : Ids n t.path_data
  pub ranges : All (InData (length t.path_data)) t.path_range

append_pair-TableFits :
    (n : ℕ) (t : PathTable) {t' : PathTable} (x y : List ℕ)
    → append_pair x y t ≡ some t'
    → Ids n x
    → Ids n y
    → TableFits n t
    → TableFits n t'
append_pair-TableFits n t x y e hx hy fits =
    let d = t.path_data in
    let a = length-append d x in
    let b = length-append (d ++ x) y in
    subst (TableFits n) (sym (append_pair-eq t x y e)) (record {
      ids = Ids-append n (d ++ x) y (Ids-append n d x fits.ids hx) hy;
      ranges =
          All-append (InData (length ((d ++ x) ++ y))) t.path_range _
            (All-map (λ r k. (k.0, k.1, omega (arith, a, b, k.2))) t.path_range fits.ranges)
            ((omega (arith, a), omega (arith, b), omega arith), tt);
    })

pub merge-TableFits :
    (n : ℕ) (ed nd : List ℕ) (er nr : List (ℕ × ℕ)) (t : PathTable) {t' : PathTable}
    → merge ed nd er nr t ≡ some t'
    → Ids n ed
    → Ids n nd
    → TableFits n t
    → TableFits n t'
unfolding merge
merge-TableFits n ed nd [] nr t h he hn fits =
    let same : t ≡ _ = cc in subst (TableFits n) same fits
merge-TableFits n ed nd (r ∷ er) [] t h he hn fits =
    let same : t ≡ _ = cc in subst (TableFits n) same fits
merge-TableFits n ed nd ((es, ee) ∷ er) ((ns, ne) ∷ nr) t h he hn fits =
    let (t1, one, rest) = >>=-eq-some (append_pair (slice es ee ed) (slice ns ne nd) t) _ h in
    merge-TableFits n ed nd er nr t1 rest he hn (
      append_pair-TableFits n t (slice es ee ed) (slice ns ne nd) one (Ids-slice n es ee ed he)
        (Ids-slice n ns ne nd hn) fits)

row-Ids :
    (n k from to : ℕ)
    → from < n
    → to + k ≤ n
    → All (λ (q : ℕ × ℕ). (q.0 < n) × (q.1 < n)) (row k from to)
unfolding row
row-Ids n zero from to h le = tt
row-Ids n (suc k) from to h le = ((h, omega arith), row-Ids n k from (to + 1) h (omega arith))

pub rows-Ids :
    (n left from : ℕ)
    → from + left ≤ n
    → All (λ (q : ℕ × ℕ). (q.0 < n) × (q.1 < n)) (rows n left from)
unfolding rows
rows-Ids n zero from h = tt
rows-Ids n (suc left) from h =
    All-append (λ (q : ℕ × ℕ). (q.0 < n) × (q.1 < n)) (row n from 0) (rows n left (from + 1))
      (row-Ids n n from 0 (omega arith) (omega arith)) (rows-Ids n left (from + 1) (omega arith))
