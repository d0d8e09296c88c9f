-- ===== src/Games/Breakout/Shown.antt =====
-- The scene against the game.
use esp_mosaico_claw.Base.{
  ◌≢◌, ℕ, ◌-◌, ◌≡◌, refl, sym, ap, subst, ◌∙◌, inl, inr, Bool, true, false, not, ◌||◌, Option-cases,
  List, [], ◌∷◌, arith, if◌then◌else◌, if_cases, ◌==◌, ltb, leb, set, Text,
}
use esp_mosaico_claw.Games.Breakout.{
  Floats, GameState, Breakout, Scene, Event, message_of, hint_of, state_index, strike,
  reset_ball_on_paddle, reset_game, on_brick, bounce_off_bricks, move_ball, meet_paddle, settle,
  is_playing, sim_step, render_positions, render_numbers, render_overlay, render, render_all,
  press_in, press, on_pointer, breakout_event, breakout_started, events, clampf,
}

-- A value that is shown again only after a change, or by force.
refreshed :
    (force : Bool) (x last shown : ℕ)
    → (force ≡ false → last ≡ shown)
    → let c = force || not (x == last) in
      ((if c then x else shown) ≡ x) × ((if c then x else last) ≡ (if c then x else shown))
refreshed true x last shown h = (refl, refl)
refreshed false x last shown h = let e : last ≡ shown = h refl in ground arith

refreshed_pair :
    (force : Bool) (x y last_x last_y : ℕ) (shown : ℕ × ℕ)
    → (force ≡ false → (last_x, last_y) ≡ shown)
    → let c = force || not (x == last_x) || not (y == last_y) in
      ((if c then (x, y) else shown) ≡ (x, y))
      × ((if c then x else last_x, if c then y else last_y) ≡ (if c then (x, y) else shown))
refreshed_pair true x y last_x last_y shown h = (refl, refl)
refreshed_pair false x y last_x last_y (a, b) h =
    let p : last_x ≡ a = ap (λ z. z.0) (h refl) in
    let q : last_y ≡ b = ap (λ z. z.1) (h refl) in ground arith

same_state : (c d : GameState) → (state_index c == state_index d) ≡ true → c ≡ d
same_state GameState.ready GameState.ready e = refl
same_state GameState.playing GameState.playing e = refl
same_state GameState.won GameState.won e = refl
same_state GameState.lost GameState.lost e = refl
same_state _ _ e = cc

-- The overlay and its texts for a state.
abbrev pub Covers : GameState → Scene → Type 0
Covers c s =
    (s.overlay ≡ not (is_playing c))
    × (c ≢ GameState.playing → (s.message ≡ message_of c) × (s.hint ≡ hint_of c))

texts_of :
    (c : GameState) (m h : Text)
    → c ≢ GameState.playing
    → ((if not (is_playing c) then message_of c else m) ≡ message_of c)
      × ((if not (is_playing c) then hint_of c else h) ≡ hint_of c)
texts_of GameState.playing m h n = absurd (n refl)
texts_of _ m h n = (refl, refl)

module _ {R : Type 0} where
  -- The last values are those that the scene shows.
  pub record Cached (g : Breakout R) (s : Scene) : Type 0 where
    pub paddle : g.last_paddle_x ≡ s.paddle
    pub ball : (g.last_ball_x, g.last_ball_y) ≡ s.ball
    pub score : g.last_score ≡ s.score
    pub lives : g.last_lives ≡ s.lives
    pub overlay : Covers g.last_state s

module _ {R : Type 0} (k : Floats R) where
  -- The scene shows the game.
  pub record Shows (g : Breakout R) (s : Scene) : Type 0 where
    pub bricks : s.bricks ≡ g.brick
    pub paddle : s.paddle ≡ k.to_int (k.add g.paddle_x (k.of_tenths 5))
    pub ball :
        s.ball
        ≡ (k.to_int (k.add g.ball_x (k.of_tenths 5)), k.to_int (k.add g.ball_y (k.of_tenths 5)))
    pub score : s.score ≡ g.score
    pub lives : s.lives ≡ g.lives
    pub overlay : Covers g.state s
    pub cached : Cached g s

  render-Shows :
      (force : Bool) (g : Breakout R) (s : Scene)
      → s.bricks ≡ g.brick
      → (force ≡ false → Cached g s)
      → let (g', s') = render k force g s in Shows g' s'
  unfolding render render_positions render_numbers render_overlay
  render-Shows force g s b c =
      let px = k.to_int (k.add g.paddle_x (k.of_tenths 5)) in
      let bx = k.to_int (k.add g.ball_x (k.of_tenths 5)) in
      let by = k.to_int (k.add g.ball_y (k.of_tenths 5)) in
      let (p1, p2) = refreshed force px g.last_paddle_x s.paddle (λ f. (c f).paddle) in
      let (b1, b2) =
        refreshed_pair force bx by g.last_ball_x g.last_ball_y s.ball (λ f. (c f).ball) in
      let (n1, n2) = refreshed force g.score g.last_score s.score (λ f. (c f).score) in
      let (l1, l2) = refreshed force g.lives g.last_lives s.lives (λ f. (c f).lives) in
      if_cases (λ (r : Breakout R × Scene). Shows r.0 r.1)
        (force || not (state_index g.state == state_index g.last_state))
        (λ _. record {
          bricks = b;
          paddle = p1;
          ball = b1;
          score = n1;
          lives = l1;
          overlay = (refl, texts_of g.state s.message s.hint);
          cached = record {
            paddle = p2;
            ball = b2;
            score = n2;
            lives = l2;
            overlay = (refl, texts_of g.state s.message s.hint);
          };
        })
        (λ t.
          let f : force ≡ false = ground arith in
          let q : g.last_state ≡ g.state = sym (same_state g.state g.last_state (ground arith)) in
          let o : (s.overlay ≡ not (is_playing g.state))
              × (g.state ≢ GameState.playing
                  → (s.message ≡ message_of g.state) × (s.hint ≡ hint_of g.state)) =
            subst (λ x. Covers x s) q ((c f).overlay) in
          record {
            bricks = b;
            paddle = p1;
            ball = b1;
            score = n1;
            lives = l1;
            overlay = o;
            cached = record {
              paddle = p2;
              ball = b2;
              score = n2;
              lives = l2;
              overlay = (c f).overlay;
            };
          })

  render_all-Shows : (g : Breakout R) (s : Scene) → let (g', s') = render_all k g s in Shows g' s'
  unfolding render_all
  render_all-Shows g s = render-Shows true g (record s { bricks = g.brick }) refl (λ e. cc)

  -- A step changes the scene's bricks with the game's, and none of the last values.
  abbrev Steps : Breakout R × Scene → Type 0
  Steps p = (p.1.bricks ≡ p.0.brick) × Cached p.0 p.1

  bounce-Steps : (g : Breakout R) (s : Scene) → Steps (g, s) → Steps (bounce_off_bricks k g s)
  unfolding bounce_off_bricks
  bounce-Steps g s (b, c) = elim (Option-cases (strike (on_brick k g) 0 g.brick)) [
    | inl e ↦ rw (e, bounce_off_bricks) (b, c)
    | inr (j, e) ↦
        rw (e, bounce_off_bricks)
          (
            ap (λ x. set x j false) b,
            record {
              paddle = c.paddle;
              ball = c.ball;
              score = c.score;
              lives = c.lives;
              overlay = c.overlay;
            },
          )
  ]

  keeps-Cached :
      (g h : Breakout R) (s : Scene)
      → h.last_paddle_x ≡ g.last_paddle_x
      → (h.last_ball_x ≡ g.last_ball_x) × (h.last_ball_y ≡ g.last_ball_y)
      → (h.last_score ≡ g.last_score) × (h.last_lives ≡ g.last_lives)
      → h.last_state ≡ g.last_state
      → Cached g s
      → Cached h s
  keeps-Cached g h s p (bx, by) (n, l) o c = record {
    paddle = p ∙ c.paddle;
    ball = ap (λ x. (x, h.last_ball_y)) bx ∙ ap (λ y. (g.last_ball_x, y)) by ∙ c.ball;
    score = n ∙ c.score;
    lives = l ∙ c.lives;
    overlay = subst (λ x. Covers x s) (sym o) c.overlay;
  }

  moved-Steps :
      (g : Breakout R) (s : Scene) → Steps (g, s) → Steps (meet_paddle k (move_ball k g), s)
  unfolding meet_paddle move_ball
  moved-Steps g s (b, c) =
      let d : Cached (move_ball k g) s =
        keeps-Cached g (move_ball k g) s refl (refl, refl) (refl, refl) refl c in
      if_cases (λ (h : Breakout R). Steps (h, s)) _
        (λ _. (b, keeps-Cached g _ s refl (refl, refl) (refl, refl) refl c)) (λ _. (b, d))

  settle-Steps : (g : Breakout R) (s : Scene) → Steps (g, s) → Steps (settle k g, s)
  unfolding settle reset_ball_on_paddle
  settle-Steps g s (b, c) =
      let P = λ (h : Breakout R). Steps (h, s) in
      if_cases P (g.bricks_left == 0)
        (λ _. (b, keeps-Cached g _ s refl (refl, refl) (refl, refl) refl c))
        (λ _.
          if_cases P (k.le (k.of_int 464) g.ball_y)
            (λ _.
              if_cases P (g.lives - 1 == 0)
                (λ _. (b, keeps-Cached g _ s refl (refl, refl) (refl, refl) refl c))
                (λ _. (b, keeps-Cached g _ s refl (refl, refl) (refl, refl) refl c)))
            (λ _. (b, c)))

  sim_step-Steps : (g : Breakout R) (s : Scene) → Steps (g, s) → Steps (sim_step k g s)
  unfolding sim_step
  sim_step-Steps g s v =
      let g1 = meet_paddle k (move_ball k g) in
      let (g2, s2) = bounce_off_bricks k g1 s in
      if_cases Steps (not (is_playing g.state)) (λ _. v)
        (λ _. settle-Steps g2 s2 (bounce-Steps g1 s (moved-Steps g s v)))

  abbrev pub Showing : Breakout R × Scene → Type 0
  Showing p = Shows p.0 p.1

  press_in-Shows :
      (c : GameState) (g : Breakout R) (s : Scene)
      → s.bricks ≡ g.brick
      → Cached g s
      → Showing (press_in k c g s)
  unfolding press_in reset_ball_on_paddle
  press_in-Shows GameState.ready g s b c =
      let h : Breakout R = record (reset_ball_on_paddle k g) { state = GameState.playing } in
      render-Shows false h s b (λ _. keeps-Cached g h s refl (refl, refl) (refl, refl) refl c)
  press_in-Shows GameState.playing g s b c = render-Shows false g s b (λ _. c)
  press_in-Shows GameState.won g s b c = render_all-Shows (reset_game k g) s
  press_in-Shows GameState.lost g s b c = render_all-Shows (reset_game k g) s

  event-Shows :
      (g : Breakout R) (s : Scene) (e : Event) → Shows g s → Showing (breakout_event k g s e)
  unfolding breakout_event on_pointer press
  event-Shows g s Event.start v = render_all-Shows g s
  event-Shows g s Event.scene_changed v = render_all-Shows g s
  event-Shows g s Event.timer v =
      let (g', s') = sim_step k g s in
      let (b, c) = sim_step-Steps g s (v.bricks, v.cached) in render-Shows false g' s' b (λ _. c)
  event-Shows g s (Event.pointer pressed x y) v =
      let h : Breakout R = record g {
        paddle_x =
            clampf k (k.sub (k.of_int x) (k.div (k.of_int 96) (k.of_int 2))) (k.of_int 18)
              (k.of_int 366);
      } in
      if_cases Showing (not pressed || leb 460 y || ltb y 64) (λ _. v)
        (λ _.
          press_in-Shows g.state h s v.bricks
            (keeps-Cached g h s refl (refl, refl) (refl, refl) refl v.cached))
  event-Shows g s Event.other v = v

  events-Shows :
      (g : Breakout R) (s : Scene) (es : List Event) → Shows g s → Showing (events k g s es)
  unfolding events
  events-Shows g s [] v = v
  events-Shows g s (e ∷ es) v =
      let (g', s') = breakout_event k g s e in events-Shows g' s' es (event-Shows g s e v)

  -- From the start event on, whatever the scene and the last values were before and whatever the
  -- events and the floating-point numbers are, the scene shows the game after every event: its
  -- bricks, the places of the paddle and the ball, the score and the lives, and the overlay exactly
  -- while it is not being played, with the texts of its state.
  pub start-events-Shows :
      (g : Breakout R) (s : Scene) (es : List Event)
      → Showing (events k (breakout_started k g) s (Event.start ∷ es))
  unfolding events breakout_event
  start-events-Shows g s es =
      let (g', s') = render_all k (breakout_started k g) s in
      events-Shows g' s' es (render_all-Shows (breakout_started k g) s)
