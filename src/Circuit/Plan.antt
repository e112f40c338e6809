-- ===== src/Circuit/Plan.antt =====
-- The chunks hold the set bits in order, and the tile levels stack without a gap.
use native.Mathlib.Nat.{mod-lt, div-add-mod'}
use shachain2pc.Base.{
  ℕ, zero, suc, ◌+◌, ◌-◌, ◌*◌, ◌%◌, ◌/◌, ◌≤◌, ◌<◌, ◌≡◌, refl, sym, ap, ◌∙◌, subst, inl, inr,
  Bool-cases, true, false, not, ◌&&◌, ◌==◌, List, [], ◌∷◌, ◌++◌, length, length-append, All,
  All-append, bit_and, ok, arith,
}
use shachain2pc.Base.Bits.{◌>>>◌}
use shachain2pc.Types.Index.{index_bits}
use shachain2pc.Shachain.{bits_below, set_bits_desc}
use shachain2pc.Circuit.{
  add_bit, add_bits, close_groups, split_chain_bits, TileLevel, tile_levels, top_level,
  plan_tile_levels,
}

abbrev pub concat : List (List ℕ) → List ℕ
concat [] = []
concat (g ∷ gs) = g ++ concat gs

append_assoc : (xs ys zs : List ℕ) → (xs ++ ys) ++ zs ≡ xs ++ (ys ++ zs)
append_assoc [] ys zs = refl
append_assoc (x ∷ xs) ys zs = ap (λ l. x ∷ l) (append_assoc xs ys zs)

append_nil : (xs : List ℕ) → xs ++ [] ≡ xs
append_nil [] = refl
append_nil (x ∷ xs) = ap (λ l. x ∷ l) (append_nil xs)

concat-append : (gs : List (List ℕ)) (l : List ℕ) → concat (gs ++ l ∷ []) ≡ concat gs ++ l
concat-append [] l = append_nil l
concat-append (g ∷ gs) l =
    ap (λ r. g ++ r) (concat-append gs l) ∙ sym (append_assoc g (concat gs) l)

-- A group is not longer than the bound.
abbrev pub Fits : ℕ → List ℕ → Type 0
Fits n g = length g ≤ n

-- The last group may grow.
replace_last :
    (n : ℕ) (gs : List (List ℕ)) (g h : List ℕ)
    → All (Fits n) (gs ++ g ∷ [])
    → (Fits n g → Fits n h)
    → All (Fits n) (gs ++ h ∷ [])
replace_last n [] g h (x, _) f = (f x, tt)
replace_last n (k ∷ gs) g h (x, xs) f = (x, replace_last n gs g h xs f)

add_bit-concat :
    (n b : ℕ) (s : List (List ℕ) × List ℕ)
    → 1 ≤ n
    → All (Fits n) (close_groups s)
    → (concat (close_groups (add_bit n b s)) ≡ concat (close_groups s) ++ b ∷ [])
      × All (Fits n) (close_groups (add_bit n b s))
add_bit-concat n b (gs, last) pos fits =
    elim (Bool-cases (not (length last == 0) && length last == n)) [
      | inl e ↦ rw e (
        concat-append (gs ++ last ∷ []) (b ∷ []),
        All-append (Fits n) (gs ++ last ∷ []) ((b ∷ []) ∷ []) fits (pos, tt),
      )
      | inr e ↦ rw e (
        concat-append gs (last ++ b ∷ [])
            ∙ sym (append_assoc (concat gs) last (b ∷ []))
            ∙ ap (λ l. l ++ b ∷ []) (sym (concat-append gs last)),
        replace_last n gs last (last ++ b ∷ []) fits
            (λ short. let more = length-append last (b ∷ []) in ground arith),
      )
    ]

add_bits-concat :
    (n index k : ℕ) (s : List (List ℕ) × List ℕ)
    → 1 ≤ n
    → All (Fits n) (close_groups s)
    → (concat (close_groups (add_bits n index k s)) ≡ concat (close_groups s) ++ bits_below k index)
      × All (Fits n) (close_groups (add_bits n index k s))
unfolding add_bits bits_below
add_bits-concat n index zero s pos fits = (sym (append_nil _), fits)
add_bits-concat n index (suc b) s pos fits = elim (Bool-cases (bit_and (index >>> b) 1 == 0)) [
  | inl e ↦
      let skip : add_bits n index (suc b) s ≡ add_bits n index b s = rw e refl in
      let clear : bits_below (suc b) index ≡ bits_below b index = rw e refl in
      let (same, all) = add_bits-concat n index b s pos fits in
      (
        ap (λ t. concat (close_groups t)) skip
            ∙ same
            ∙ ap (λ l. concat (close_groups s) ++ l) (sym clear),
        subst (λ t. All (Fits n) (close_groups t)) (sym skip) all,
      )
  | inr e ↦
      let take : add_bits n index (suc b) s ≡ add_bits n index b (add_bit n b s) = rw e refl in
      let found : bits_below (suc b) index ≡ b ∷ bits_below b index = rw e refl in
      let (same, fits') = add_bit-concat n b s pos fits in
      let (rest, all) = add_bits-concat n index b (add_bit n b s) pos fits' in
      (
        ap (λ t. concat (close_groups t)) take
            ∙ rest
            ∙ ap (λ l. l ++ bits_below b index) same
            ∙ append_assoc (concat (close_groups s)) (b ∷ []) (bits_below b index)
            ∙ ap (λ l. concat (close_groups s) ++ l) (sym found),
        subst (λ t. All (Fits n) (close_groups t)) (sym take) all,
      )
]

-- The chunks of a derivation are its chain: one after the other they are the set bits of the index
-- from the highest to the lowest, and none has more bits than asked for.
pub split_chain_bits-concat :
    (index blocks : ℕ) {groups : List (List ℕ)}
    → split_chain_bits index blocks ≡ ok groups
    → (concat groups ≡ set_bits_desc index) × All (Fits blocks) groups
unfolding split_chain_bits set_bits_desc
split_chain_bits-concat index blocks {groups} e =
    let pos : 1 ≤ blocks = ground arith in
    let same : close_groups (add_bits blocks index index_bits ([], [])) ≡ groups = ground arith in
    let (all, fits) = add_bits-concat blocks index index_bits ([], []) pos (omega arith, tt) in
    subst (λ gs. (concat gs ≡ bits_below index_bits index) × All (Fits blocks) gs) same (all, fits)

-- The levels from the top of a stack of height `top` down to 0, each at most as high as a tile.
abbrev pub IsStack : ℕ → ℕ → List TileLevel → Type 0
IsStack tile top [] = top ≡ 0
IsStack tile top (l ∷ ls) =
    (l.bit_offset + l.height ≡ top)
    × (1 ≤ l.height)
    × (l.height ≤ tile)
    × IsStack tile l.bit_offset ls

tile_levels-IsStack :
    (fuel n height offset : ℕ)
    → 1 ≤ height
    → offset ≡ n * height
    → offset < fuel
    → IsStack height (offset + height) (tile_levels fuel offset height)
unfolding tile_levels
tile_levels-IsStack zero n height offset pos at enough = absurd (omega arith)
tile_levels-IsStack (suc fuel) zero height offset pos at enough =
    let stop : (offset == 0) ≡ true = ground arith in rw stop (refl, pos, omega arith, omega arith)
tile_levels-IsStack (suc fuel) (suc n) height offset pos at enough =
    let more : offset ≡ n * height + height = at ∙ grind arith in
    let go : (offset == 0) ≡ false = ground arith in
    let rest =
      tile_levels-IsStack fuel n height (offset - height) pos (omega arith) (omega arith) in
    let below : offset - height + height ≡ offset = omega arith in
    rw go (
      refl,
      pos,
      omega arith,
      subst (λ top. IsStack height top (tile_levels fuel (offset - height) height)) below rest,
    )

tiled :
    (depth height q r : ℕ)
    → 1 ≤ height
    → height ≤ depth
    → depth ≡ q * height + r
    → r < height
    → IsStack height depth
        (top_level depth r ++ tile_levels (depth - r - height + 1) (depth - r - height) height)
tiled depth height zero r pos deep split small = absurd (omega arith)
tiled depth height (suc q) r pos deep split small =
    let offset = depth - r - height in
    let full : suc q * height ≡ q * height + height = grind arith in
    let at : offset ≡ q * height = omega arith in
    let rest = tile_levels-IsStack (offset + 1) q height offset pos at (omega arith) in
    elim (Bool-cases (r == 0)) [
      | inl e ↦
          let none_left : r ≡ 0 = ground arith in
          let top : offset + height ≡ depth = omega arith in
          rw e (subst (λ t. IsStack height t (tile_levels (offset + 1) offset height)) top rest)
      | inr e ↦
          let some_left : 1 ≤ r = ground arith in
          let top : offset + height ≡ depth - r = omega arith in
          rw e (
            omega arith,
            some_left,
            omega arith,
            subst (λ t. IsStack height t (tile_levels (offset + 1) offset height)) top rest,
          )
    ]

-- The plan of a tree is a stack of tiles: from its depth down to 0 the levels follow one another
-- without a gap, and each has a height from 1 up to the height of a tile.
pub plan_tile_levels-IsStack :
    (depth tile_height : ℕ) {levels : List TileLevel}
    → plan_tile_levels depth tile_height ≡ ok levels
    → IsStack tile_height depth levels
unfolding plan_tile_levels
plan_tile_levels-IsStack depth tile_height {levels} e =
    let pos : 1 ≤ tile_height = ground arith in
    let deep : tile_height ≤ depth = ground arith in
    let r = depth % tile_height in
    let remaining = depth - r in
    let offset = remaining - tile_height in
    let plan : top_level depth r ++ tile_levels (offset + 1) offset tile_height ≡ levels =
      ground arith in
    subst (IsStack tile_height depth) plan (
      tiled depth tile_height (depth / tile_height) r pos deep
        (sym (div-add-mod' depth tile_height)) (mod-lt depth (omega arith)))
