-- ===== src/State/PositionLaws.antt =====
-- The helpers on positions in src/state/mod.rs on the forest of perfect trees, each laid out with its
-- left tree first and its root last.
use native.Mathlib.Nat.{pow-suc, pow-le-pow_right}
use conxian_nexus.Prelude.{
  ℕ, zero, suc, ◌+◌, ◌-◌, ◌*◌, ◌^◌, ◌≤◌, ◌<◌, ◌≡◌, refl, ap, ◌∙◌, inl, inr, true, false, some, List,
  [], ◌∷◌, Bool-cases, add64, sub64, ltb, leb, if◌then◌else◌, arith,
}
use conxian_nexus.Prelude.Dict.{if_true, if_false}
use conxian_nexus.State.Positions.{shl_one, height_loop, get_mmr_node_height, prepend, descend}

-- The path down to `pos` in the tree of height `h` that begins at `start`: the position beside each
-- step.
pub data Below : ℕ → ℕ → ℕ → List ℕ → Type 0 where
  root :
      {h start pos : ℕ} {path : List ℕ}
      → pos + 2 ≡ start + 2 ^ suc h
      → path ≡ []
      → Below h start pos path
  left :
      {h k start pos right_root : ℕ} {path rest : List ℕ}
      → h ≡ suc k
      → right_root + 3 ≡ start + 2 * 2 ^ suc k
      → path ≡ right_root ∷ rest
      → Below k start pos rest
      → Below h start pos path
  right :
      {h k start pos left_root : ℕ} {path rest : List ℕ}
      → h ≡ suc k
      → left_root + 2 ≡ start + 2 ^ suc k
      → path ≡ left_root ∷ rest
      → Below k (left_root + 1) pos rest
      → Below h start pos path

pub pow_positive : (h : ℕ) → 1 ≤ 2 ^ h
pow_positive zero = omega arith
pow_positive (suc h) = omega (arith, pow_positive h, pow-suc 2 h)

pow_above : (h : ℕ) → h < 2 ^ h
pow_above zero = omega arith
pow_above (suc h) = omega (arith, pow_above h, pow-suc 2 h)

-- The shift within 64 bits.
shl_small : (h : ℕ) → h ≤ 62 → shl_one (h + 1) ≡ 2 ^ suc h
shl_small h b = ap (λ k. 2 ^ k) (omega arith)

pub pow_small : (h : ℕ) → h ≤ 62 → 2 ^ h ≤ 2 ^ 62
pow_small h b = pow-le-pow_right (omega arith) b

pub full_size : (h : ℕ) → h ≤ 62 → sub64 (shl_one (h + 1)) 1 + 1 ≡ 2 ^ suc h
full_size h b = omega (arith, shl_small h b, pow_positive h, pow-suc 2 h, pow_small h b)

height_loop-stop : (fuel h p : ℕ) → h ≤ 62 → p + 1 < 2 ^ suc h → height_loop (suc fuel) p h ≡ some h
unfolding height_loop
height_loop-stop fuel h p b small =
    let size = full_size h b in
    let test : ltb p (sub64 (shl_one (h + 1)) 1) ≡ true = ground arith in
    if_true (ltb p (sub64 (shl_one (h + 1)) 1)) _ _ test

height_loop-go :
    (fuel h p q : ℕ)
    → h ≤ 62
    → p < 2 ^ 64
    → q + 2 ^ suc h ≡ p + 1
    → height_loop (suc fuel) p h ≡ height_loop fuel q (suc h)
unfolding height_loop
height_loop-go fuel h p q b small e =
    let size = full_size h b in
    let test : ltb p (sub64 (shl_one (h + 1)) 1) ≡ false = ground arith in
    let next : sub64 p (sub64 (shl_one (h + 1)) 1) ≡ q = omega (arith, size, e, small) in
    if_false (ltb p (sub64 (shl_one (h + 1)) 1)) _ _ test
    ∙ ap (λ x. height_loop fuel x (h + 1)) next
    ∙ ap (λ k. height_loop fuel q k) (omega arith)

-- The loop at the root of a tree of height `top`, after `h` rounds.
height_loop-root :
    (d fuel h p top : ℕ)
    → d < fuel
    → h + d ≡ top
    → top ≤ 62
    → p + 2 ^ suc h ≡ 2 ^ suc top + h
    → height_loop fuel p h ≡ some top
height_loop-root d zero h p top f t b e = absurd (omega arith)
height_loop-root zero (suc fuel) h p top f t b e =
    let same : h ≡ top = omega arith in
    height_loop-stop fuel h p (omega arith) (omega (arith, pow_above h, pow-suc 2 h, rw same at e))
    ∙ ap some same
height_loop-root (suc d) (suc fuel) h p top f t b e =
    let q = p + 1 - 2 ^ suc h in
    let tall : 2 ^ suc (suc h) ≤ 2 ^ suc top = pow-le-pow_right (omega arith) (omega arith) in
    let short : 2 ^ suc top ≤ 2 ^ 63 =
      pow-le-pow_right (omega arith) {i = suc top} {j = 63} (omega arith) in
    let double = pow-suc 2 (suc h) in
    height_loop-go fuel h p q (omega arith) (omega (arith, e, short))
      (omega (arith, e, tall, double))
    ∙ height_loop-root d fuel (suc h) q top (omega arith) (omega arith) b
        (omega (arith, e, tall, double))

get_mmr_node_height-root : (h p : ℕ) → h ≤ 62 → p + 2 ≡ 2 ^ suc h → get_mmr_node_height p ≡ some h
unfolding get_mmr_node_height
get_mmr_node_height-root h p b e =
    height_loop-root h 64 0 p h (omega arith) (omega arith) b (omega (arith, e))

-- The loop at `p` and `h` stops at the height of the tree in which the trees of heights from `h` on,
-- laid out one behind the other, have position `p`.
height_loop-total :
    (d fuel h p : ℕ)
    → d < fuel
    → h + d ≡ 62
    → p < 2 ^ 62
    → (top : ℕ) × (height_loop fuel p h ≡ some top)
      × (2 ^ suc top + h ≤ p + 2 ^ suc h + top)
      × (p + 2 ^ suc h + top + 1 < 2 ^ suc (suc top) + h)
height_loop-total d zero h p f t b = absurd (omega arith)
height_loop-total zero (suc fuel) h p f t b =
    let same : h ≡ 62 = omega arith in
    let power : 2 ^ suc h ≡ 2 ^ 63 = ap (λ k. 2 ^ suc k) same in
    (
      h,
      height_loop-stop fuel h p (omega arith) (omega arith),
      omega arith,
      omega (arith, pow-suc 2 (suc h)),
    )
height_loop-total (suc d) (suc fuel) h p f t b = elim (Bool-cases (ltb (p + 1) (2 ^ suc h))) [
  | inl small ↦ (
    h,
    height_loop-stop fuel h p (omega arith) (ground arith),
    omega arith,
    ground (arith, pow-suc 2 (suc h)),
  )
  | inr large ↦
      let q = p + 1 - 2 ^ suc h in
      let double = pow-suc 2 (suc h) in
      let whole : 2 ^ suc h ≤ p + 1 = ground arith in
      let (top, e, low, high) =
        height_loop-total d fuel (suc h) q (omega arith) (omega arith)
          (omega (arith, pow_positive (suc h))) in
      (
        top,
        height_loop-go fuel h p q (omega arith) (omega arith) (ground arith) ∙ e,
        omega arith,
        omega arith,
      )
]

-- get_mmr_node_height ends for every position below 2^62. With perfect trees of heights 0, 1, 2
-- and so on laid out one behind the other, its result is the height of the tree that has the
-- position: the trees before it have 2^(h+1) - h - 2 nodes, no more than the position, and with it
-- 2^(h+2) - h - 3, more than the position.
pub get_mmr_node_height_total :
    (pos : ℕ)
    → pos < 2 ^ 62
    → (h : ℕ) × (get_mmr_node_height pos ≡ some h)
      × (2 ^ suc h ≤ pos + h + 2)
      × (pos + h + 3 < 2 ^ suc (suc h))
unfolding get_mmr_node_height
get_mmr_node_height_total pos b =
    let (h, e, low, high) = height_loop-total 62 64 0 pos (omega arith) refl b in
    (h, e, omega arith, omega arith)

-- One step down, on either side.
descend-step :
    (fuel pos p start h left_child : ℕ)
    → pos < p
    → p < 2 ^ 64
    → get_mmr_node_height (sub64 p start) ≡ some h
    → sub64 p (shl_one h) ≡ left_child
    → descend (suc fuel) pos p start ≡ (
        if leb pos left_child
        then prepend (sub64 p 1) (descend fuel pos left_child start)
        else prepend left_child (descend fuel pos (sub64 p 1) (add64 left_child 1)))
unfolding descend
descend-step fuel pos p start h left_child below b e l =
    let test : ltb pos p ≡ true = ground arith in rw (descend, test, e, l) refl

pub descend-Below :
    (fuel h pos p start : ℕ)
    → h < fuel
    → h ≤ 62
    → p + 2 ≡ start + 2 ^ suc h
    → p < 2 ^ 63
    → start ≤ pos
    → pos ≤ p
    → (path : List ℕ) × (descend fuel pos p start ≡ some path) × Below h start pos path
unfolding descend
descend-Below zero h pos p start f b e small low high = absurd (omega arith)
descend-Below (suc fuel) zero pos p start f b e small low high =
    let here : ltb pos p ≡ false = ground arith in
    ([], if_false (ltb pos p) _ _ here, root (omega arith) refl)
descend-Below (suc fuel) (suc k) pos p start f b e small low high = elim (Bool-cases (ltb pos p)) [
  | inr here ↦ ([], if_false (ltb pos p) _ _ here, root (ground arith) refl)
  | inl down ↦
      let double = pow-suc 2 (suc k) in
      let one = pow_positive (suc k) in
      let l = p - 2 ^ suc k in
      let l_is : l + 2 ≡ start + 2 ^ suc k = omega arith in
      let height : get_mmr_node_height (sub64 p start) ≡ some (suc k) =
        get_mmr_node_height-root (suc k) (sub64 p start) b (omega arith) in
      let shift : shl_one (suc k) ≡ 2 ^ suc k = ap (λ n. 2 ^ n) (omega arith) in
      let l_eq : sub64 p (shl_one (suc k)) ≡ l = omega arith in
      let go = descend-step fuel pos p start (suc k) l (ground arith) (omega arith) height l_eq in
      let r : sub64 p 1 + 1 ≡ p = omega arith in
      let next : add64 l 1 ≡ l + 1 = omega arith in
      elim (Bool-cases (leb pos l)) [
        | inl on_left ↦
            let (rest, d, below) =
              descend-Below fuel k pos l start (omega arith) (omega arith) l_is (omega arith) low
                (ground arith) in
            (
              sub64 p 1 ∷ rest,
              go ∙ if_true (leb pos l) _ _ on_left ∙ ap (prepend (sub64 p 1)) d,
              left refl (omega arith) refl below,
            )
        | inr on_right ↦
            let (rest, d, below) =
              descend-Below fuel k pos (sub64 p 1) (l + 1) (omega arith) (omega arith) (omega arith)
                (omega arith) (ground arith) (ground arith) in
            (
              l ∷ rest,
              go
                  ∙ if_false (leb pos l) _ _ on_right
                  ∙ ap (prepend l) (ap (descend fuel pos (sub64 p 1)) next ∙ d),
              right refl l_is refl below,
            )
      ]
]
