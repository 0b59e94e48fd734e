-- ===== src/Codegen/Tables/Slices.antt =====
-- Blobs and ranges of hsmc-macros/src/codegen.rs: each recorded range cuts out the path that was put
-- in, whatever is appended later.
use hsmc.Codegen.Walks.{compute_one}
use hsmc.Prelude.{
  >>=-eq-some, List, ℕ, ◌≤◌, ◌≡◌, ◌++◌, length, some, slice, arith, ◌∷◌, [], length-append,
  slice-append, ◌∙◌, subst, Option, sym, append-nil, slice-last, append_assoc,
}
use hsmc.Codegen.Tables.{Blob, extend, to_u16, for_pairs, TransitionPathTables}

-- `range` cuts the listed paths out of `blob`, in order.
abbrev pub Cuts : List ℕ → List (ℕ × ℕ) → List (List ℕ) → Type 0
Cuts blob [] [] = Unit
Cuts blob [] (p ∷ paths) = ⊥
Cuts blob (r ∷ range) [] = ⊥
Cuts blob ((s, e) ∷ range) (p ∷ paths) =
    (s ≤ e) × (e ≤ length blob) × (slice s e blob ≡ p) × Cuts blob range paths

pub Cuts-append :
    (blob more : List ℕ) (range : List (ℕ × ℕ)) (paths : List (List ℕ))
    → Cuts blob range paths
    → Cuts (blob ++ more) range paths
Cuts-append blob more [] [] h = tt
Cuts-append blob more [] (p ∷ paths) h = absurd h
Cuts-append blob more (r ∷ range) [] h = absurd h
Cuts-append blob more ((s, e) ∷ range) (p ∷ paths) h = (
  h.0,
  omega (arith, length-append blob more, h.1),
  slice-append s e blob more h.0 h.1 ∙ h.2,
  Cuts-append blob more range paths h.3,
)

Cuts-snoc :
    (blob : List ℕ) (s e : ℕ) (range : List (ℕ × ℕ)) (paths : List (List ℕ)) (p : List ℕ)
    → Cuts blob range paths
    → s ≤ e
    → e ≤ length blob
    → slice s e blob ≡ p
    → Cuts blob (range ++ (s, e) ∷ []) (paths ++ p ∷ [])
Cuts-snoc blob s e [] [] p h a b c = (a, b, c, tt)
Cuts-snoc blob s e [] (q ∷ paths) p h a b c = absurd h
Cuts-snoc blob s e (r ∷ range) [] p h a b c = absurd h
Cuts-snoc blob s e ((s', e') ∷ range) (q ∷ paths) p h a b c =
    (h.0, h.1, h.2, Cuts-snoc blob s e range paths p h.3 a b c)

pub to_u16-eq : (n m : ℕ) → to_u16 n ≡ some m → (n ≡ m) × (n ≤ 65535)
to_u16-eq n m h = ground arith

pub extend-eq :
    (b : Blob) {b' : Blob} (path : List ℕ)
    → extend b path ≡ some b'
    → b' ≡ record {
      blob = b.blob ++ path;
      range = b.range ++ (length b.blob, length (b.blob ++ path)) ∷ [];
    }
unfolding extend
extend-eq b path h = ground arith

pub extend-Cuts :
    (b b' : Blob) (path : List ℕ) (paths : List (List ℕ))
    → extend b path ≡ some b'
    → Cuts b.blob b.range paths
    → Cuts b'.blob b'.range (paths ++ path ∷ [])
extend-Cuts b b' path paths h cuts =
    subst (λ (c : Blob). Cuts c.blob c.range (paths ++ path ∷ [])) (sym (extend-eq b path h))
      (Cuts-snoc (b.blob ++ path) (length b.blob) (length (b.blob ++ path)) b.range paths path
        (Cuts-append b.blob path b.range paths cuts) (omega (arith, length-append b.blob path))
        (omega arith) (slice-last b.blob path))

-- The paths that the loop over the state pairs computes.
abbrev pub Found :
    (ℕ → ℕ → Option (List ℕ × List ℕ)) → List (ℕ × ℕ) → List (List ℕ) → List (List ℕ) → Type 0
Found one [] [] [] = Unit
Found one ((from, to) ∷ rest) (x ∷ xs) (y ∷ ys) = (one from to ≡ some (x, y)) × Found one rest xs ys
Found one _ _ _ = ⊥

module _ (parent : ℕ → Option ℕ) (depth : ℕ → ℕ) (fuel : ℕ) where
  -- The loop over the state pairs records the two paths of each pair, in order.
  pub for_pairs-Cuts :
      (pairs : List (ℕ × ℕ)) (t : TransitionPathTables) {t' : TransitionPathTables}
      (xs ys : List (List ℕ))
      → for_pairs parent depth fuel pairs t ≡ some t'
      → Cuts t.exits.blob t.exits.range xs
      → Cuts t.enters.blob t.enters.range ys
      → (xs' ys' : List (List ℕ)) × Found (compute_one parent depth fuel) pairs xs' ys'
        × Cuts t'.exits.blob t'.exits.range (xs ++ xs')
        × Cuts t'.enters.blob t'.enters.range (ys ++ ys')
  unfolding for_pairs
  for_pairs-Cuts [] t {t'} xs ys h cx cy =
      let same : t ≡ t' = cc in ([], [], tt, rw (← same, append-nil) cx, rw (← same, append-nil) cy)
  for_pairs-Cuts ((from, to) ∷ rest) t xs ys h cx cy =
      let ((x, y), found, h1) = >>=-eq-some (compute_one parent depth fuel from to) _ h in
      let (exits', ex, h2) = >>=-eq-some (extend t.exits x) _ h1 in
      let (enters', ey, h3) = >>=-eq-some (extend t.enters y) _ h2 in
      let (xs', ys', rest', cx', cy') =
        for_pairs-Cuts rest (record { exits = exits'; enters = enters' }) (xs ++ x ∷ [])
          (ys ++ y ∷ []) h3 (extend-Cuts t.exits exits' x xs ex cx)
          (extend-Cuts t.enters enters' y ys ey cy) in
      (x ∷ xs', y ∷ ys', (found, rest'), rw append_assoc at cx', rw append_assoc at cy')
