-- ===== src/Game/Scores.antt =====
-- The score of a player.
use embedded_basecamp.Prelude.{
  ℕ, ◌+◌, ◌*◌, ◌^◌, ◌<◌, ◌≤◌, ◌≡◌, refl, Bool, true, false, Option, none, some, List, [], ◌∷◌, ◌++◌,
  arith, mem, ltb, ◌==◌, Bool-cases, Option-cases, inl, inr, length,
}
use embedded_basecamp.Prelude.Memory.{update}
use embedded_basecamp.Links.{ListLib}
use embedded_basecamp.Game.{
  Player, Game, Throw, get_random_engine_value, player_add_new_dice, sum_in, player_get_dice_sum,
  throws,
}

module _ {C : Type 0} (lib : ListLib C) where
  open lib use {entries, list_add_tail, entries-list_add_tail}

  -- A sum over dice that are all there, with one more die behind them.
  sum_in-append :
      (ds : List ℕ) (acc d v s : ℕ) (g g' : Game C)
      → sum_in lib ds acc g ≡ some s
      → g.dices d ≡ none
      → g'.dices ≡ update g.dices d (some v)
      → s + v < 2 ^ 31
      → (mem d ds ≡ false) × (sum_in lib (ds ++ d ∷ []) acc g' ≡ some (s + v))
  unfolding sum_in
  sum_in-append [] acc d v s g g' run gone next small =
      let e : acc ≡ s = ground arith in
      let here : g'.dices d ≡ some v = rw next (ground arith) in
      let fits : ltb (s + v) (2 ^ 31) ≡ true = ground arith in (refl, rw (e, here, fits))
  sum_in-append (c ∷ ds) acc d v s g g' run gone next small = elim (Option-cases (g.dices c)) [
    | inl h ↦ absurd (ground arith)
    | inr (w, h) ↦ elim (Bool-cases (ltb (acc + w) (2 ^ 31))) [
      | inl k ↦
          let other : (c == d) ≡ false = ground arith in
          let there : g'.dices c ≡ some w = rw next (ground arith) in
          let (out, rest) =
            sum_in-append ds (acc + w) d v s g g' (rw (h, k) at run) gone next small in
          (ground arith, rw (there, k, rest))
      | inr k ↦ absurd (ground arith)
    ]
  ]

  -- A die that is thrown for a player adds its result to the player's score, if its block is free and
  -- the new score fits an int.
  pub player_get_dice_sum-add :
      (p d v s : ℕ) (x : Player C) (g : Game C)
      → g.players p ≡ some x
      → g.dices d ≡ none
      → player_get_dice_sum lib p g ≡ some s
      → s + v < 2 ^ 31
      → (g' : Game C) × (x' : Player C) × (player_add_new_dice lib (some d) p v g ≡ some g')
        × (g'.players p ≡ some x')
        × (g'.dices ≡ update g.dices d (some v))
        × (player_get_dice_sum lib p g' ≡ some (s + v))
  unfolding player_get_dice_sum player_add_new_dice
  player_get_dice_sum-add p d v s x g live free run small =
      let g' : Game C = record g {
        dices = update g.dices d (some v);
        players = update g.players p (some (record x { dice_list = list_add_tail d x.dice_list }));
      } in
      let sum : sum_in lib (entries x.dice_list) 0 g ≡ some s = rw live at run in
      let (out, total) = sum_in-append (entries x.dice_list) 0 d v s g g' sum free refl small in
      let own : g'.players p ≡ some (record x { dice_list = list_add_tail d x.dice_list }) =
        ground arith in
      (
        g',
        record x { dice_list = list_add_tail d x.dice_list },
        rw live,
        own,
        refl,
        rw (own, entries-list_add_tail d x.dice_list out) total,
      )

  abbrev same_block : ℕ → Option ℕ → Bool
  same_block d none = false
  same_block d (some c) = d == c

  abbrev Apart : ℕ → List Throw → Type 0
  Apart d [] = Unit
  Apart d (t ∷ ts) = (same_block d t.block ≡ false) × Apart d ts

  -- Each throw has a block of its own, which is free.
  abbrev pub Ready : List Throw → Game C → Type 0
  Ready [] g = Unit
  Ready (t ∷ ts) g = ((d : ℕ) × (t.block ≡ some d) × (g.dices d ≡ none) × Apart d ts) × Ready ts g

  Ready-kept :
      (ts : List Throw) (d v : ℕ) (g g' : Game C)
      → Apart d ts
      → g'.dices ≡ update g.dices d (some v)
      → Ready ts g
      → Ready ts g'
  Ready-kept [] d v g g' a next r = tt
  Ready-kept (t ∷ ts) d v g g' a next r =
      let (c, block, free, apart) = r.0 in
      let other : (c == d) ≡ false =
        let k : same_block d (some c) ≡ false = rw block at a.0 in ground arith in
      ((c, block, rw next (ground arith), apart), Ready-kept ts d v g g' a.1 next r.1)

  -- The throws of a player, on free blocks, are made without a fault if the score cannot leave an int;
  -- each of the n throws adds from 1 to 6 to the score.
  pub throws-score :
      (ts : List Throw) (p s : ℕ) (x : Player C) (g : Game C)
      → g.players p ≡ some x
      → Ready ts g
      → player_get_dice_sum lib p g ≡ some s
      → s + 6 * length ts < 2 ^ 31
      → (g' : Game C) × (s' : ℕ) × (throws lib p ts g ≡ some g')
        × (player_get_dice_sum lib p g' ≡ some s')
        × (s + length ts ≤ s')
        × (s' ≤ s + 6 * length ts)
  unfolding throws
  throws-score [] p s x g live r run small = (g, s, refl, run, omega arith, omega arith)
  throws-score (t ∷ ts) p s x g live r run small =
      let (d, block, free, apart) = r.0 in
      let v : ℕ = get_random_engine_value t.rand in
      let (g1, x1, made, live1, next, sum1) =
        player_get_dice_sum-add p d v s x g live free run (omega arith) in
      let (g', s', rest, total, low, high) =
        throws-score ts p (s + v) x1 g1 live1 (Ready-kept ts d v g g1 apart next r.1) sum1
          (omega arith) in
      (g', s', rw (block, made, rest), total, omega arith, omega arith)
