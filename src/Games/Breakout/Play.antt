-- ===== src/Games/Breakout/Play.antt =====
-- The rules through all events of a game.
use esp_mosaico_claw.Base.{
  ◌↔◌, ◌+◌, ◌*◌, ◌≤◌, ◌≡◌, refl, sym, subst, Bool, true, false, not, ◌||◌, List, [], ◌∷◌, arith,
  if_cases, ltb, leb, length,
}
use esp_mosaico_claw.Games.Breakout.{
  Floats, GameState, Breakout, Scene, Event, reset_ball_on_paddle, reset_game, sim_step,
  render_positions, render_numbers, render_overlay, render, render_all, press_in, press, on_pointer,
  breakout_event, breakout_started, events, clampf,
}
use esp_mosaico_claw.Games.Breakout.Rules.{
  count, Board, IsSound, board, Sound, reset_game-Sound, sim_step-Sound,
}

module _ {R : Type 0} (k : Floats R) where
  render-board :
      (force : Bool) (g : Breakout R) (s : Scene) → board ((render k force g s).0) ≡ board g
  unfolding render render_positions render_numbers render_overlay
  render-board force g s =
      if_cases (λ (p : Breakout R × Scene). board p.0 ≡ board g) _ (λ _. refl) (λ _. refl)

  render-Sound :
      (force : Bool) (g : Breakout R) (s : Scene) → Sound g → Sound ((render k force g s).0)
  render-Sound force g s v = subst IsSound (sym (render-board force g s)) v

  -- A game that starts is sound, if it was.
  started-Sound :
      (g : Board)
      → IsSound g
      → g.state ≡ GameState.ready
      → IsSound (record g { state = GameState.playing })
  started-Sound g v e = record {
    places = v.places;
    counted = v.counted;
    scored = v.scored;
    limited = v.limited;
    alive = λ _. v.alive (λ w. cc);
    left = λ _. v.left (λ w. cc);
    wins = λ w. cc;
    loses = λ w. cc;
  }

  render_all-Sound : (g : Breakout R) (s : Scene) → Sound g → Sound ((render_all k g s).0)
  unfolding render_all
  render_all-Sound g s v = render-Sound true g (record s { bricks = g.brick }) v

  press_in-Sound :
      (c : GameState) (g : Breakout R) (s : Scene)
      → g.state ≡ c
      → Sound g
      → Sound ((press_in k c g s).0)
  unfolding press_in reset_ball_on_paddle
  press_in-Sound GameState.ready g s e v =
      render-Sound false (record (reset_ball_on_paddle k g) { state = GameState.playing }) s
        (started-Sound (board g) v e)
  press_in-Sound GameState.playing g s e v = render-Sound false g s v
  press_in-Sound GameState.won g s e v = render_all-Sound (reset_game k g) s (reset_game-Sound k g)
  press_in-Sound GameState.lost g s e v = render_all-Sound (reset_game k g) s (reset_game-Sound k g)

  event-Sound :
      (g : Breakout R) (s : Scene) (e : Event) → Sound g → Sound ((breakout_event k g s e).0)
  unfolding breakout_event on_pointer press
  event-Sound g s Event.start v = render_all-Sound g s v
  event-Sound g s Event.scene_changed v = render_all-Sound g s v
  event-Sound g s Event.timer v =
      let (g', s') = sim_step k g s in render-Sound false g' s' (sim_step-Sound k g s v)
  event-Sound g s (Event.pointer pressed x y) v =
      if_cases (λ (p : Breakout R × Scene). Sound p.0) (not pressed || leb 460 y || ltb y 64)
        (λ _. v)
        (λ _.
          press_in-Sound g.state
            (record g {
              paddle_x =
                  clampf k (k.sub (k.of_int x) (k.div (k.of_int 96) (k.of_int 2))) (k.of_int 18)
                    (k.of_int 366);
            })
            s refl v)
  event-Sound g s Event.other v = v

  events-Sound :
      (g : Breakout R) (s : Scene) (es : List Event) → Sound g → Sound ((events k g s es).0)
  unfolding events
  events-Sound g s [] v = v
  events-Sound g s (e ∷ es) v =
      let (g', s') = breakout_event k g s e in events-Sound g' s' es (event-Sound g s e v)

  won_of :
      (b : Board) (c : GameState) → b.state ≡ c → IsSound b → b.bricks_left ≡ 0 → c ≡ GameState.won
  won_of b GameState.won e v z = refl
  won_of b _ e v z = let n : 1 ≤ b.bricks_left = v.left (λ w. cc) in ground arith

  lost_of : (b : Board) (c : GameState) → b.state ≡ c → IsSound b → b.lives ≡ 0 → c ≡ GameState.lost
  lost_of b GameState.lost e v z = refl
  lost_of b _ e v z = let n : 1 ≤ b.lives = v.alive (λ w. cc) in ground arith

  -- From the start of the app on, whatever the events and whatever the floating-point numbers do,
  -- there are twenty places for bricks, as many bricks as are counted, ten points for each brick that
  -- is gone and at most three lives; the game is won exactly if no brick is left and lost exactly if
  -- no life is left.
  pub started-events-Sound :
      (g : Breakout R) (s : Scene) (es : List Event)
      → let g' = (events k (breakout_started k g) s es).0 in
        (length g'.brick ≡ 20)
        × (count g'.brick ≡ g'.bricks_left)
        × (g'.score + 10 * g'.bricks_left ≡ 200)
        × (g'.lives ≤ 3)
        × ((g'.state ≡ GameState.won) ↔ (g'.bricks_left ≡ 0))
        × ((g'.state ≡ GameState.lost) ↔ (g'.lives ≡ 0))
  unfolding breakout_started
  started-events-Sound g s es =
      let v = events-Sound (reset_game k g) s es (reset_game-Sound k g) in
      let g' = (events k (reset_game k g) s es).0 in
      (
        v.places,
        v.counted,
        v.scored,
        v.limited,
        (v.wins, λ z. won_of (board g') (g'.state) refl v z),
        (v.loses, λ z. lost_of (board g') (g'.state) refl v z),
      )
