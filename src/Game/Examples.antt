-- ===== src/Game/Examples.antt =====
-- The theorems on the game at concrete inputs: player 1 at address 5, with two throws to make.
use embedded_basecamp.Prelude.{
  ℕ, ◌≤◌, ◌≡◌, refl, none, some, List, [], ◌∷◌, arith, ◌==◌, if◌then◌else◌,
}
use embedded_basecamp.Links.Sequence.{sequence_lib}
use embedded_basecamp.Game.{Player, Game, Throw, player_get_dice_sum, sum_in, throws}
use embedded_basecamp.Game.Scores.{throws-score}

abbrev first : Player (List ℕ)
first = record { id = 1; dice_list = [] }

abbrev table : Game (List ℕ)
table = record {
  players_list = 5 ∷ [];
  players = λ k. if k == 5 then some first else none;
  dices = λ k. none;
}

abbrev two_throws : List Throw
two_throws = record { block = some 20; rand = 8 } ∷ record { block = some 21; rand = 5 } ∷ []

nothing_thrown : player_get_dice_sum sequence_lib 5 table ≡ some 0
unfolding player_get_dice_sum sum_in
nothing_thrown = refl

throws-score_example :
    (g' : Game (List ℕ)) × (s' : ℕ) × (throws sequence_lib 5 two_throws table ≡ some g')
    × (player_get_dice_sum sequence_lib 5 g' ≡ some s')
    × (2 ≤ s')
    × (s' ≤ 12)
throws-score_example =
    throws-score sequence_lib two_throws 5 0 first table refl
      ((20, refl, refl, (refl, tt)), ((21, refl, refl, tt), tt)) nothing_thrown (omega arith)
