-- ===== src/Games/Breakout.antt =====
-- components/mosaic_ui/apps/breakout/breakout_app.c: the simulation, the presenter and the events. The
-- floating-point numbers of the C compiler are a record of their operations, and an `int` that is
-- made of one is a number of 32 bits. The scene is what the last setters have shown; the source
-- drops their results. The bricks are in the order of the loops, row by row.
pub mod Rules
pub mod Play
pub mod Shown
mod Tests
use esp_mosaico_claw.Base.{
  ℕ, zero, suc, ◌+◌, ◌-◌, ◌*◌, ◌/◌, ◌%◌, Bool, true, false, not, ◌&&◌, ◌||◌, Option, none, some,
  List, [], ◌∷◌, if◌then◌else◌, ◌==◌, ltb, leb, set, replicate, Text, text, ◌>>=◌,
}

-- `float`: the operations that the source uses, the number that is an integer or a number of tenths,
-- and the conversion to an integer.
pub record Floats (R : Type 0) : Type 0 where
  pub of_int : ℕ → R
  pub of_tenths : ℕ → R
  pub add : R → R → R
  pub sub : R → R → R
  pub mul : R → R → R
  pub div : R → R → R
  pub neg : R → R
  pub lt : R → R → Bool
  pub le : R → R → Bool
  pub to_int : R → ℕ

-- `game_state_t`.
pub data GameState : Type 0 where
  ready playing won lost : GameState

-- `breakout_t`. The lives and the bricks are positive wherever the source takes one away.
pub record Breakout (R : Type 0) : Type 0 where
  pub state : GameState
  pub ball_x : R
  pub ball_y : R
  pub ball_vx : R
  pub ball_vy : R
  pub paddle_x : R
  pub score : ℕ
  pub lives : ℕ
  pub bricks_left : ℕ
  pub brick : List Bool
  pub last_ball_x : ℕ
  pub last_ball_y : ℕ
  pub last_paddle_x : ℕ
  pub last_score : ℕ
  pub last_lives : ℕ
  pub last_state : GameState

-- What the scene shows: the bricks, the positions, the two numbers of the HUD and the overlay.
pub record Scene : Type 0 where
  pub bricks : List Bool
  pub paddle : ℕ
  pub ball : ℕ × ℕ
  pub score : ℕ
  pub lives : ℕ
  pub overlay : Bool
  pub message : Text
  pub hint : Text

-- `mosaic_event_t`, by its type; a pointer is pressed or not, at a place.
pub data Event : Type 0 where
  start scene_changed timer other : Event
  pointer : Bool → ℕ → ℕ → Event

abbrev pub state_index : GameState → ℕ
state_index GameState.ready = 0
state_index GameState.playing = 1
state_index GameState.won = 2
state_index GameState.lost = 3

abbrev pub message_of : GameState → Text
message_of GameState.won = text "YOU WIN"
message_of GameState.lost = text "GAME OVER"
message_of _ = text "TAP TO START"

abbrev pub hint_of : GameState → Text
hint_of GameState.ready = text "Drag to move the paddle"
hint_of _ = text "Tap to play again"

abbrev pub is_playing : GameState → Bool
is_playing GameState.playing = true
is_playing _ = false

-- The index of the first brick that is there and hit; `i` is that of the first of the list.
unfoldable pub strike : (ℕ → Bool) → ℕ → List Bool → Option ℕ
strike hit i [] = none
strike hit i (b ∷ bs) =
    let rest = strike hit (i + 1) bs >>= λ j. some (suc j) in if b && hit i then some 0 else rest

module _ {R : Type 0} (k : Floats R) where
  pub clampf : R → R → R → R
  clampf v lo hi = if k.lt v lo then lo else (if k.lt hi v then hi else v)

  abbrev half : ℕ → R
  half n = k.div (k.of_int n) (k.of_int 2)

  -- The ball on the paddle, with the first velocity.
  unfoldable pub reset_ball_on_paddle : Breakout R → Breakout R
  reset_ball_on_paddle g = record g {
    ball_x = k.add g.paddle_x (half 80);
    ball_y = k.of_int 392;
    ball_vx = k.of_int 3;
    ball_vy = k.neg (k.of_tenths 34);
  }

  unfoldable pub reset_game : Breakout R → Breakout R
  reset_game g = reset_ball_on_paddle (record g {
    state = GameState.ready;
    score = 0;
    lives = 3;
    bricks_left = 20;
    paddle_x = half 384;
    brick = replicate 20 true;
  })

  -- Whether the ball's centre is on a brick, the index of which tells its row and its column.
  pub on_brick : Breakout R → ℕ → Bool
  on_brick g i =
      let cx = k.add g.ball_x (half 16) in
      let cy = k.add g.ball_y (half 16) in
      let bx = 18 + i % 5 * 90 in
      let by = 104 + i / 5 * 30 in
      k.le (k.of_int bx) cx
      && k.le cx (k.of_int (bx + 84))
      && k.le (k.of_int by) cy
      && k.le cy (k.of_int (by + 24))

  unfoldable pub bounce_off_bricks : Breakout R → Scene → Breakout R × Scene
  bounce_off_bricks g s = elim (strike (on_brick g) 0 g.brick) [
    | none ↦ (g, s)
    | some i ↦ (
      record g {
        brick = set g.brick i false;
        bricks_left = g.bricks_left - 1;
        score = g.score + 10;
        ball_vy = k.neg g.ball_vy;
      },
      record s { bricks = set s.bricks i false },
    )
  ]

  -- The ball moves, and the walls turn it.
  pub move_ball : Breakout R → Breakout R
  move_ball g =
      let x = k.add g.ball_x g.ball_vx in
      let y = k.add g.ball_y g.ball_vy in
      let left = k.le x (k.of_int 4) in
      let right = k.le (k.of_int 460) x in
      let top = k.le y (k.of_int 64) in
      record g {
        ball_x = if left then k.of_int 4 else (if right then k.of_int 460 else x);
        ball_vx = if left || right then k.neg g.ball_vx else g.ball_vx;
        ball_y = if top then k.of_int 64 else y;
        ball_vy = if top then k.neg g.ball_vy else g.ball_vy;
      }

  -- The paddle turns a ball that falls on it.
  pub meet_paddle : Breakout R → Breakout R
  meet_paddle g =
      let bottom = k.add g.ball_y (k.of_int 16) in
      let hit = k.sub (k.add g.ball_x (half 16)) (k.add g.paddle_x (half 96)) in
      if k.lt (k.of_int 0) g.ball_vy
        && k.le (k.of_int 408) bottom
        && k.le bottom (k.of_int 430)
        && k.le g.paddle_x (k.add g.ball_x (k.of_int 16))
        && k.le g.ball_x (k.add g.paddle_x (k.of_int 96))
      then record g {
        ball_y = k.of_int 392;
        ball_vy = k.neg g.ball_vy;
        ball_vx =
            clampf (k.mul (k.div hit (half 96)) (k.of_int 4)) (k.neg (k.of_tenths 45))
              (k.of_tenths 45);
      }
      else g

  -- The end of a step.
  unfoldable pub settle : Breakout R → Breakout R
  settle g =
      if g.bricks_left == 0
      then record g { state = GameState.won }
      else if k.le (k.of_int 464) g.ball_y
      then (if g.lives - 1 == 0
          then record g { lives = g.lives - 1; state = GameState.lost }
          else reset_ball_on_paddle (record g { lives = g.lives - 1; state = GameState.ready }))
      else g

  unfoldable pub sim_step : Breakout R → Scene → Breakout R × Scene
  sim_step g s =
      let (g', s') = bounce_off_bricks (meet_paddle (move_ball g)) s in
      if not (is_playing g.state) then (g, s) else (settle g', s')

  unfoldable pub render_positions : Bool → Breakout R → Scene → Breakout R × Scene
  render_positions force g s =
      let px = k.to_int (k.add g.paddle_x (k.of_tenths 5)) in
      let bx = k.to_int (k.add g.ball_x (k.of_tenths 5)) in
      let by = k.to_int (k.add g.ball_y (k.of_tenths 5)) in
      let paddle = force || not (px == g.last_paddle_x) in
      let ball = force || not (bx == g.last_ball_x) || not (by == g.last_ball_y) in
      (
        record g {
          last_paddle_x = if paddle then px else g.last_paddle_x;
          last_ball_x = if ball then bx else g.last_ball_x;
          last_ball_y = if ball then by else g.last_ball_y;
        },
        record s {
          paddle = if paddle then px else s.paddle;
          ball = if ball then (bx, by) else s.ball;
        },
      )

  unfoldable pub render_numbers : Bool → Breakout R → Scene → Breakout R × Scene
  render_numbers force g s =
      let score = force || not (g.score == g.last_score) in
      let lives = force || not (g.lives == g.last_lives) in
      (
        record g {
          last_score = if score then g.score else g.last_score;
          last_lives = if lives then g.lives else g.last_lives;
        },
        record s {
          score = if score then g.score else s.score;
          lives = if lives then g.lives else s.lives;
        },
      )

  unfoldable pub render_overlay : Bool → Breakout R → Scene → Breakout R × Scene
  render_overlay force g s =
      let overlay = not (is_playing g.state) in
      if force || not (state_index g.state == state_index g.last_state)
      then (
        record g { last_state = g.state },
        record s {
          overlay = overlay;
          message = if overlay then message_of g.state else s.message;
          hint = if overlay then hint_of g.state else s.hint;
        },
      )
      else (g, s)

  unfoldable pub render : Bool → Breakout R → Scene → Breakout R × Scene
  render force g s =
      let (g1, s1) = render_positions force g s in
      let (g2, s2) = render_numbers force g1 s1 in render_overlay force g2 s2

  unfoldable pub render_all : Breakout R → Scene → Breakout R × Scene
  render_all g s = render true g (record s { bricks = g.brick })

  -- A pressed pointer within the field, once the paddle has moved.
  unfoldable pub press_in : GameState → Breakout R → Scene → Breakout R × Scene
  press_in GameState.ready g s =
      render false (record (reset_ball_on_paddle g) { state = GameState.playing }) s
  press_in GameState.playing g s = render false g s
  press_in _ g s = render_all (reset_game g) s

  unfoldable pub press : Breakout R → Scene → ℕ → Breakout R × Scene
  press g s x =
      press_in g.state
        (record g { paddle_x = clampf (k.sub (k.of_int x) (half 96)) (k.of_int 18) (k.of_int 366) })
        s

  unfoldable pub on_pointer : Breakout R → Scene → Bool → ℕ → ℕ → Breakout R × Scene
  on_pointer g s pressed x y = if not pressed || leb 460 y || ltb y 64 then (g, s) else press g s x

  unfoldable pub breakout_event : Breakout R → Scene → Event → Breakout R × Scene
  breakout_event g s Event.start = render_all g s
  breakout_event g s Event.scene_changed = render_all g s
  breakout_event g s Event.timer = let (g', s') = sim_step g s in render false g' s'
  breakout_event g s (Event.pointer pressed x y) = on_pointer g s pressed x y
  breakout_event g s Event.other = (g, s)

  unfoldable pub breakout_started : Breakout R → Breakout R
  breakout_started g = reset_game g

  unfoldable pub events : Breakout R → Scene → List Event → Breakout R × Scene
  events g s [] = (g, s)
  events g s (e ∷ es) = let (g', s') = breakout_event g s e in events g' s' es
