-- ===== src/State/MmrLaws.antt =====
-- `MMRFoundation` keeps the peaks of the leaves that were added, and is determined by them.
use mathlib.Core.List.{append_assoc, append-nil}
use native.Mathlib.Nat.{pow-suc, add-zero}
use mathlib.Core.Path.{ap₂, subst}
use conxian_nexus.Prelude.{
  ℕ, zero, suc, ◌+◌, ◌*◌, ◌^◌, ◌≤◌, ◌<◌, ◌≡◌, refl, sym, ap, ◌∙◌, some, List, [], ◌∷◌, ◌++◌, Text,
  add64, arith, length, length-append, ones, count_ones,
}
use conxian_nexus.State.Crypto.{Bytes, Crypto}
use conxian_nexus.State.Tree.{leaf_hash}
use conxian_nexus.State.Mmr.{MmrFoundation, empty_mmr, add_leaf, add_leaves}
use conxian_nexus.State.Mountains.{
  Mountain, single, pair, Range, none_left, digit_zero, digit_one, merge_peaks-Range,
}
use conxian_nexus.State.Counting.{Consecutive, merge_peaks-count}

append_inj :
    (xs xs' ys ys' : List Text)
    → xs ++ ys ≡ xs' ++ ys'
    → length xs ≡ length xs'
    → (xs ≡ xs') × (ys ≡ ys')
append_inj [] [] ys ys' e h = (refl, e)
append_inj [] (x' ∷ xs') ys ys' e h = absurd (omega arith)
append_inj (x ∷ xs) [] ys ys' e h = absurd (omega arith)
append_inj (x ∷ xs) (x' ∷ xs') ys ys' e h =
    let (p, q) = append_inj xs xs' ys ys' (cc) (omega arith) in (cc, q)

append_inj_right :
    (xs xs' ys ys' : List Text)
    → xs ++ ys ≡ xs' ++ ys'
    → length ys ≡ length ys'
    → (xs ≡ xs') × (ys ≡ ys')
append_inj_right xs xs' ys ys' e h =
    append_inj xs xs' ys ys' e
      (omega (arith, ap length e, length-append xs ys, length-append xs' ys'))

Consecutive-append :
    (n : ℕ) (xs ys : List (ℕ × Bytes))
    → Consecutive n xs
    → Consecutive (n + length xs) ys
    → Consecutive n (xs ++ ys)
Consecutive-append n [] ys h k = rw (add-zero n) at k
Consecutive-append n (x ∷ xs) ys h k =
    (h.0, Consecutive-append (n + 1) xs ys h.1 (rw (shift n (length xs)) k))
  where
    shift : (a b : ℕ) → a + 1 + b ≡ a + suc b
    shift a b = omega arith

module _ (c : Crypto) where
  open c use {sha256}

  -- A tree of height `h` has 2 ^ h leaves.
  pub length-Mountain : {h : ℕ} {d : Bytes} {xs : List Text} → Mountain c h d xs → length xs ≡ 2 ^ h
  length-Mountain (single l e x) = rw x (refl)
  length-Mountain (pair {h = h} {xs = xs} {ys = ys} a b e x) =
      rw x (omega (arith, length-append xs ys, length-Mountain a, length-Mountain b, pow-suc 2 h))

  pub Mountain-unique :
      (h : ℕ) {d d' : Bytes} {xs : List Text} → Mountain c h d xs → Mountain c h d' xs → d ≡ d'
  Mountain-unique zero (single l e x) (single l' e' x') =
      let same : l ≡ l' = cc in e ∙ ap (leaf_hash c) same ∙ sym e'
  Mountain-unique (suc h) (pair {a = a} {b = b} {xs = xs} {ys = ys} left right e x)
        (pair {a = a'} {b = b'} {xs = xs'} {ys = ys'} left' right' e' x') =
      let (p, q) =
        append_inj xs xs' ys ys' (sym x ∙ x')
          (length-Mountain left ∙ sym (length-Mountain left')) in
      let same_left : a ≡ a' = Mountain-unique h left (rw p left') in
      let same_right : b ≡ b' = Mountain-unique h right (rw q right') in
      e ∙ cc (same_left, same_right) ∙ sym e'

  -- The leaves determine the peaks.
  pub Range-unique :
      {h n : ℕ} {ps qs : List Bytes} {xs : List Text}
      → Range c h n ps xs
      → Range c h n qs xs
      → ps ≡ qs
  Range-unique (none_left n0 p0 x0) (none_left n0' p0' x0') = p0 ∙ sym p0'
  Range-unique (none_left n0 p0 x0) (digit_zero pos e r) = absurd (omega arith)
  Range-unique (none_left n0 p0 x0) (digit_one e ep ex t r) = absurd (omega arith)
  Range-unique (digit_zero pos e r) (none_left n0 p0 x0) = absurd (omega arith)
  Range-unique (digit_zero pos e r) (digit_zero pos' e' r') = Range-unique r r'
  Range-unique (digit_zero pos e r) (digit_one e' ep ex t r') = absurd (omega arith)
  Range-unique (digit_one e ep ex t r) (none_left n0 p0 x0) = absurd (omega arith)
  Range-unique (digit_one e ep ex t r) (digit_zero pos' e' r') = absurd (omega arith)
  Range-unique {h} (digit_one {ys = ys} {zs = zs} e ep ex t r)
        (digit_one {ys = ys'} {zs = zs'} e' ep' ex' t' r') =
      let (p, q) =
        append_inj_right ys ys' zs zs' (sym ex ∙ ex')
          (length-Mountain t ∙ sym (length-Mountain t')) in
      ep ∙ ap₂ ◌∷◌ (Mountain-unique h t (rw q t')) (Range-unique r (rw p r')) ∙ sym ep'

  -- The range stands for these leaves: its peaks are the roots of the perfect trees over them, by
  -- the binary digits of their number, and the counters agree with it.
  pub record Represents (m : MmrFoundation) (xs : List Text) : Type 0 where
    pub range : Range c 0 m.size m.peaks xs
    pub sized : m.size ≡ length xs
    pub nodes : m.node_count + count_ones m.size ≡ 2 * m.size

  pub empty-Represents : Represents empty_mmr []
  unfolding count_ones ones
  empty-Represents = record { range = none_left refl refl refl; sized = refl; nodes = refl }

  pub add_leaf-Represents :
      (m : MmrFoundation) (xs : List Text) (l : Text)
      → Represents m xs
      → length xs < 2 ^ 62
      → (m' : MmrFoundation) × (nodes : List (ℕ × Bytes)) × (add_leaf c m l ≡ some (m', nodes))
        × Represents m' (xs ++ l ∷ [])
        × Consecutive m.node_count nodes
        × (m'.node_count ≡ m.node_count + length nodes)
  unfolding add_leaf count_ones
  add_leaf-Represents m xs l r small =
      let (ps, k, added, e, range) =
        merge_peaks-Range c (leaf_hash c l) (l ∷ []) (add64 m.node_count 1) r.range
          (single l refl refl) in
      let (total, grown, placed) =
        merge_peaks-count c 64 m.size m.peaks (leaf_hash c l) (add64 m.node_count 1) ps k added e
          (omega (arith, r.sized)) (omega (arith, r.sized, r.nodes)) in
      let larger : add64 m.size 1 ≡ m.size + 1 = omega (arith, r.sized) in
      let next : add64 m.node_count 1 ≡ m.node_count + 1 = omega (arith, r.sized, r.nodes) in
      (
        record { peaks = ps; size = add64 m.size 1; node_count = k },
        (m.node_count, leaf_hash c l) ∷ added,
        rw e refl,
        record {
          range = rw larger range;
          sized = rw larger (omega (arith, r.sized, length-append xs (l ∷ [])));
          nodes = rw larger (omega (arith, total, next, r.nodes));
        },
        (refl, subst (λ t. Consecutive t added) next placed),
        omega (arith, grown, next),
      )

  -- Adding a batch of leaves to a mountain range that stands for a list of leaves, with at most
  -- 2^62 leaves in all, does not panic and gives a range that stands for the longer list. The new
  -- nodes have consecutive positions that start at the old node count, and the count grows by
  -- their number.
  pub add_leaves-Represents :
      (m : MmrFoundation) (xs ls : List Text)
      → Represents m xs
      → length xs + length ls ≤ 2 ^ 62
      → (m' : MmrFoundation) × (nodes : List (ℕ × Bytes)) × (add_leaves c m ls ≡ some (m', nodes))
        × Represents m' (xs ++ ls)
        × Consecutive m.node_count nodes
        × (m'.node_count ≡ m.node_count + length nodes)
  unfolding add_leaves
  add_leaves-Represents m xs [] r small = (m, [], refl, rw (append-nil xs) r, tt, omega arith)
  add_leaves-Represents m xs (l ∷ ls) r small =
      let (m', nodes, e, r', placed, grown) = add_leaf-Represents m xs l r (omega arith) in
      let (m'', more, e', r'', placed', grown') =
        add_leaves-Represents m' (xs ++ l ∷ []) ls r' (omega (arith, length-append xs (l ∷ []))) in
      (
        m'',
        nodes ++ more,
        rw e (rw e'),
        rw (append_assoc xs (l ∷ []) ls) at r'',
        Consecutive-append m.node_count nodes more placed (rw grown at placed'),
        omega (arith, grown, grown', length-append nodes more),
      )

  -- Two mountain ranges that stand for the same list of leaves are equal in peaks, size and node
  -- count, however they were built.
  pub Represents-unique :
      (m m' : MmrFoundation) (xs : List Text) → Represents m xs → Represents m' xs → m ≡ m'
  Represents-unique m m' xs r r' =
      let sizes : m'.size ≡ m.size = omega (arith, r.sized, r'.sized) in
      let counts : m.node_count ≡ m'.node_count = omega (arith, r.nodes, rw sizes at r'.nodes) in
      let peaks : m.peaks ≡ m'.peaks = Range-unique r.range (rw sizes at r'.range) in
      λ i. record { peaks = peaks i; size = sym sizes i; node_count = counts i }
