-- ===== src/Games/Breakout/Tests.antt =====
-- Tests of the game, with natural numbers for the floating-point ones, and its theorems in a game.
use esp_mosaico_claw.Base.{
  ℕ, ◌+◌, ◌-◌, ◌*◌, ◌/◌, ◌≤◌, ◌≡◌, refl, ◌↔◌, true, false, List, [], ◌∷◌, ltb, leb, length,
  replicate, text,
}
use esp_mosaico_claw.Games.Breakout.{
  Floats, GameState, Breakout, Scene, Event, settle, breakout_started, events,
}
use esp_mosaico_claw.Games.Breakout.Rules.{count}
use esp_mosaico_claw.Games.Breakout.Play.{started-events-Sound}
use esp_mosaico_claw.Games.Breakout.Shown.{Showing, start-events-Shows}

-- Numbers that never fall below 0.
abbrev toy : Floats ℕ
toy = record {
  of_int = λ n. n;
  of_tenths = λ n. n / 10;
  add = λ a b. a + b;
  sub = λ a b. a - b;
  mul = λ a b. a * b;
  div = λ a b. a / b;
  neg = λ a. 0;
  lt = ltb;
  le = leb;
  to_int = λ a. a;
}

abbrev blank : Breakout ℕ
blank = record {
  state = GameState.lost;
  ball_x = 0;
  ball_y = 0;
  ball_vx = 0;
  ball_vy = 0;
  paddle_x = 0;
  score = 70;
  lives = 0;
  bricks_left = 13;
  brick = replicate 20 false;
  last_ball_x = 0;
  last_ball_y = 0;
  last_paddle_x = 0;
  last_score = 70;
  last_lives = 0;
  last_state = GameState.lost;
}

abbrev stale : Scene
stale = record {
  bricks = [];
  paddle = 1;
  ball = (2, 3);
  score = 70;
  lives = 9;
  overlay = false;
  message = text "?";
  hint = text "?";
}

-- The ball below the paddle costs the last life.
loses :
    (settle toy (record blank { state = GameState.playing; lives = 1; ball_y = 470 })).state
    ≡ GameState.lost
unfolding settle
loses = refl

abbrev play : List Event
play = Event.pointer true 240 300 ∷ Event.timer ∷ Event.timer ∷ []

started-events-Sound_example :
    let g = (events toy (breakout_started toy blank) stale play).0 in
    (length g.brick ≡ 20)
    × (count g.brick ≡ g.bricks_left)
    × (g.score + 10 * g.bricks_left ≡ 200)
    × (g.lives ≤ 3)
    × ((g.state ≡ GameState.won) ↔ (g.bricks_left ≡ 0))
    × ((g.state ≡ GameState.lost) ↔ (g.lives ≡ 0))
started-events-Sound_example = started-events-Sound toy blank stale play

start-events-Shows_example :
    Showing toy (events toy (breakout_started toy blank) stale (Event.start ∷ play))
start-events-Shows_example = start-events-Shows toy blank stale play
