-- ===== src/Game.antt =====
-- The dice game of exercise4/game/game_core.c, on the list library. A read of a block that is not
-- there and a signed overflow are faults.
pub mod Scores
mod Examples
use embedded_basecamp.Prelude.{
  ℕ, zero, suc, ◌+◌, ◌-◌, ◌%◌, ◌^◌, Option, none, some, List, [], ◌∷◌, ltb, if◌then◌else◌,
}
use embedded_basecamp.Prelude.Partial.{◌>>=◌}
use embedded_basecamp.Prelude.Memory.{Blocks, update}
use embedded_basecamp.Links.{ListLib}

-- A die's block holds its throw_result.
pub record Player (C : Type 0) : Type 0 where
  pub id : ℕ
  pub dice_list : C

pub record Game (C : Type 0) : Type 0 where
  pub players_list : C
  pub players : Blocks (Player C)
  pub dices : Blocks ℕ

-- What malloc returned for a die, and the number from rand.
pub record Throw : Type 0 where
  pub block : Option ℕ
  pub rand : ℕ

abbrev pub get_random_engine_value : ℕ → ℕ
get_random_engine_value rand = 1 + rand % 6

module _ {C : Type 0} (lib : ListLib C) where
  open lib use {init_list_head, list_add_tail, list_del, entries}

  -- `block` is what malloc returns: it is not tested.
  unfoldable pub append_player_to_game : (block : Option ℕ) → ℕ → Game C → Option (Game C)
  append_player_to_game block player_id g = do
    p ← block
    some (record g {
      players = update g.players p (some (record { id = player_id; dice_list = init_list_head }));
      players_list = list_add_tail p g.players_list;
    })

  unfoldable pub player_add_new_dice :
      (block : Option ℕ) → (player dice_result : ℕ) → Game C → Option (Game C)
  player_add_new_dice block p dice_result g = do
    d ← block
    x ← g.players p
    some (record g {
      dices = update g.dices d (some dice_result);
      players = update g.players p (some (record x { dice_list = list_add_tail d x.dice_list }));
    })

  unfoldable pub sum_in : List ℕ → ℕ → Game C → Option ℕ
  sum_in [] result_value g = some result_value
  sum_in (d ∷ ds) result_value g = do
    v ← g.dices d
    if ltb (result_value + v) (2 ^ 31) then sum_in ds (result_value + v) g else none

  unfoldable pub player_get_dice_sum : ℕ → Game C → Option ℕ
  player_get_dice_sum p g = do x ← g.players p; sum_in (entries x.dice_list) 0 g

  unfoldable pub ids_in : List ℕ → Game C → Option (List ℕ)
  ids_in [] g = some []
  ids_in (p ∷ ps) g = do x ← g.players p; rest ← ids_in ps g; some (x.id ∷ rest)

  -- The numbers that print_players prints.
  unfoldable pub print_players : Game C → Option (List ℕ)
  print_players g = ids_in (entries g.players_list) g

  unfoldable pub scores_in : List ℕ → Game C → Option (List (ℕ × ℕ))
  scores_in [] g = some []
  scores_in (p ∷ ps) g = do
    s ← player_get_dice_sum p g
    x ← g.players p
    rest ← scores_in ps g
    some ((x.id, s) ∷ rest)

  -- The numbers that print_scoretable prints.
  unfoldable pub print_scoretable : Game C → Option (List (ℕ × ℕ))
  print_scoretable g = scores_in (entries g.players_list) g

  unfoldable pub history_in : List ℕ → Game C → Option (List ℕ)
  history_in [] g = some []
  history_in (d ∷ ds) g = do v ← g.dices d; rest ← history_in ds g; some (v ∷ rest)

  -- The numbers that print_player_history prints.
  unfoldable pub print_player_history : ℕ → Game C → Option (List ℕ)
  print_player_history p g = do x ← g.players p; history_in (entries x.dice_list) g

  unfoldable pub free_dices : List ℕ → Game C → Option (Game C)
  free_dices [] g = some g
  free_dices (d ∷ ds) g = do
    v ← g.dices d
    free_dices ds (record g { dices = update g.dices d none })

  -- The list of the dice goes with its player.
  unfoldable pub player_dtor : ℕ → Game C → Option (Game C)
  player_dtor p g = do
    x ← g.players p
    g' ← free_dices (entries x.dice_list) g
    some (record g' { players = update g'.players p none })

  unfoldable pub cleanup_players_in : List ℕ → Game C → Option (Game C)
  cleanup_players_in [] g = some g
  cleanup_players_in (p ∷ ps) g = do
    g' ← player_dtor p (record g { players_list = list_del p g.players_list })
    cleanup_players_in ps g'

  unfoldable pub cleanup_players : Game C → Option (Game C)
  cleanup_players g = cleanup_players_in (entries g.players_list) g

  -- The blocks of the players, in the order of the allocations.
  unfoldable pub append_players_from : ℕ → List (Option ℕ) → Game C → Option (Game C)
  append_players_from i [] g = some g
  append_players_from i (block ∷ blocks) g = do
    g' ← append_player_to_game block (i + 1) g
    append_players_from (i + 1) blocks g'

  unfoldable pub append_players : List (Option ℕ) → Game C → Option (Game C)
  append_players blocks g = append_players_from 0 blocks g

  -- The throws of one player, one for each of the dice.
  unfoldable pub throws : ℕ → List Throw → Game C → Option (Game C)
  throws p [] g = some g
  throws p (t ∷ ts) g = do
    g' ← player_add_new_dice t.block p (get_random_engine_value t.rand) g
    throws p ts g'

  -- One round: the players in the order of the list, each with the throws of its dice.
  unfoldable pub play_game_iteration_in : List ℕ → List (List Throw) → Game C → Option (Game C)
  play_game_iteration_in (p ∷ ps) (ts ∷ tss) g = do
    g' ← throws p ts g
    play_game_iteration_in ps tss g'
  play_game_iteration_in ps tss g = some g

  unfoldable pub play_game_iteration : List (List Throw) → Game C → Option (Game C)
  play_game_iteration tss g = play_game_iteration_in (entries g.players_list) tss g

  unfoldable pub rounds : List (List (List Throw)) → Game C → Option (Game C)
  rounds [] g = some g
  rounds (tss ∷ more) g = do g' ← play_game_iteration tss g; rounds more g'

  -- print_players_history reads only.
  unfoldable pub end_game : Game C → Option (List (ℕ × ℕ) × Game C)
  end_game g = do table ← print_scoretable g; g' ← cleanup_players g; some (table, g')

  -- The throws by round and player: as many as the arguments of the source say.
  unfoldable pub play_game_iterations :
      List (List (List Throw)) → Game C → Option (List (ℕ × ℕ) × Game C)
  play_game_iterations more g = do g' ← rounds more g; end_game g'
