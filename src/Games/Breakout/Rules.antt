-- ===== src/Games/Breakout/Rules.antt =====
-- The rules of the game, whatever the floating-point numbers do.
use esp_mosaico_claw.Base.{
  ◌≢◌, ℕ, zero, suc, ◌+◌, ◌-◌, ◌*◌, ◌≤◌, ◌≡◌, refl, sym, ap, subst, ◌∙◌, inl, inr, Bool, true,
  false, not, ◌&&◌, Option-cases, Option, none, some, List, [], ◌∷◌, arith, if_cases, ◌==◌, length,
  length-set, get_elem?, set, ◌>>=◌,
}
use esp_mosaico_claw.Games.Breakout.{
  Floats, GameState, Breakout, Scene, strike, reset_ball_on_paddle, reset_game, on_brick,
  bounce_off_bricks, move_ball, meet_paddle, settle, is_playing, sim_step,
}

-- The bricks that are there.
pub count : List Bool → ℕ
count [] = 0
count (true ∷ bs) = suc (count bs)
count (false ∷ bs) = count bs

abbrev There : List Bool → Option ℕ → Type 0
There bs none = Unit
There bs (some j) = get_elem? bs j ≡ some true

There-suc :
    (b : Bool) (bs : List Bool) (o : Option ℕ)
    → There bs o
    → There (b ∷ bs) (o >>= λ j. some (suc j))
There-suc b bs none h = tt
There-suc b bs (some j) h = h

-- A brick that is struck is there.
strike-There : (hit : ℕ → Bool) (i : ℕ) (bs : List Bool) → There bs (strike hit i bs)
unfolding strike
strike-There hit i [] = tt
strike-There hit i (b ∷ bs) =
    if_cases (There (b ∷ bs)) (b && hit i) (λ t. ground arith)
      (λ _. There-suc b bs (strike hit (i + 1) bs) (strike-There hit (i + 1) bs))

count-set :
    (bs : List Bool) (j : ℕ) → get_elem? bs j ≡ some true → count bs ≡ suc (count (set bs j false))
unfolding count
count-set [] j e = ground arith
count-set (true ∷ bs) zero e = refl
count-set (false ∷ bs) zero e = ground arith
count-set (true ∷ bs) (suc j) e = ap suc (count-set bs j e)
count-set (false ∷ bs) (suc j) e = count-set bs j e

-- The part of the game that has no floating-point numbers.
pub record Board : Type 0 where
  pub state : GameState
  pub score : ℕ
  pub lives : ℕ
  pub bricks_left : ℕ
  pub brick : List Bool

-- Twenty places for bricks, the count of those left, ten points for each that is gone; the lives and
-- the bricks left decide whether the game goes on, is won or is lost.
pub record IsSound (g : Board) : Type 0 where
  pub places : length g.brick ≡ 20
  pub counted : count g.brick ≡ g.bricks_left
  pub scored : g.score + 10 * g.bricks_left ≡ 200
  pub limited : g.lives ≤ 3
  pub alive : g.state ≢ GameState.lost → 1 ≤ g.lives
  pub left : g.state ≢ GameState.won → 1 ≤ g.bricks_left
  pub wins : g.state ≡ GameState.won → g.bricks_left ≡ 0
  pub loses : g.state ≡ GameState.lost → g.lives ≡ 0

module _ {R : Type 0} where
  abbrev pub board : Breakout R → Board
  board g = record {
    state = g.state;
    score = g.score;
    lives = g.lives;
    bricks_left = g.bricks_left;
    brick = g.brick;
  }

  abbrev pub Sound : Breakout R → Type 0
  Sound g = IsSound (board g)

module _ {R : Type 0} (k : Floats R) where
  pub reset_game-Sound : (g : Breakout R) → Sound (reset_game k g)
  unfolding reset_game reset_ball_on_paddle count
  reset_game-Sound g = record {
    places = refl;
    counted = refl;
    scored = refl;
    limited = omega arith;
    alive = λ _. omega arith;
    left = λ _. omega arith;
    wins = λ e. cc;
    loses = λ e. cc;
  }

  -- A game under way, in the middle of a step: the last brick may be gone.
  record IsUnderWay (g : Board) : Type 0 where
    pub places : length g.brick ≡ 20
    pub counted : count g.brick ≡ g.bricks_left
    pub scored : g.score + 10 * g.bricks_left ≡ 200
    pub limited : g.lives ≤ 3
    pub alive : 1 ≤ g.lives
    pub playing : g.state ≡ GameState.playing

  meet_paddle-board : (g : Breakout R) → board (meet_paddle k g) ≡ board g
  unfolding meet_paddle
  meet_paddle-board g = if_cases (λ (h : Breakout R). board h ≡ board g) _ (λ _. refl) (λ _. refl)

  moved-board : (g : Breakout R) → board (meet_paddle k (move_ball k g)) ≡ board g
  unfolding move_ball
  moved-board g = meet_paddle-board (move_ball k g)

  struck :
      (g : Board) (j : ℕ)
      → IsSound g
      → g.state ≡ GameState.playing
      → get_elem? g.brick j ≡ some true
      → IsUnderWay (record g {
        brick = set g.brick j false;
        bricks_left = g.bricks_left - 1;
        score = g.score + 10;
      })
  struck g j v p e =
      let n : 1 ≤ g.bricks_left = v.left (λ w. cc) in
      record {
        places = length-set g.brick j false ∙ v.places;
        counted = omega (arith, count-set g.brick j e, v.counted);
        scored = omega (arith, v.scored);
        limited = v.limited;
        alive = v.alive (λ w. cc);
        playing = p;
      }

  under_way : (g : Board) → IsSound g → g.state ≡ GameState.playing → IsUnderWay g
  under_way g v p = record {
    places = v.places;
    counted = v.counted;
    scored = v.scored;
    limited = v.limited;
    alive = v.alive (λ w. cc);
    playing = p;
  }

  bounce-IsUnderWay :
      (g : Breakout R) (s : Scene)
      → Sound g
      → g.state ≡ GameState.playing
      → IsUnderWay (board ((bounce_off_bricks k g s).0))
  unfolding bounce_off_bricks
  bounce-IsUnderWay g s v p =
      let t = strike-There (on_brick k g) 0 g.brick in
      elim (Option-cases (strike (on_brick k g) 0 g.brick)) [
        | inl e ↦ rw (e, bounce_off_bricks) (under_way (board g) v p)
        | inr (j, e) ↦
            rw (e, bounce_off_bricks) (struck (board g) j v p (subst (There g.brick) e t))
      ]

  settle-Sound : (g : Breakout R) → IsUnderWay (board g) → Sound (settle k g)
  unfolding settle reset_ball_on_paddle
  settle-Sound g v =
      if_cases Sound (g.bricks_left == 0)
        (λ z. record {
          places = v.places;
          counted = v.counted;
          scored = v.scored;
          limited = v.limited;
          alive = λ _. v.alive;
          left = λ w. absurd (w refl);
          wins = λ _. ground arith;
          loses = λ e. cc;
        })
        (λ z.
          if_cases Sound (k.le (k.of_int 464) g.ball_y)
            (λ _.
              if_cases Sound (g.lives - 1 == 0)
                (λ d. record {
                  places = v.places;
                  counted = v.counted;
                  scored = v.scored;
                  limited = omega (arith, v.limited);
                  alive = λ w. absurd (w refl);
                  left = λ _. ground arith;
                  wins = λ e. cc;
                  loses = λ _. ground arith;
                })
                (λ d. record {
                  places = v.places;
                  counted = v.counted;
                  scored = v.scored;
                  limited = omega (arith, v.limited);
                  alive = λ _. ground arith;
                  left = λ _. ground arith;
                  wins = λ e. cc;
                  loses = λ e. cc;
                }))
            (λ _. record {
              places = v.places;
              counted = v.counted;
              scored = v.scored;
              limited = v.limited;
              alive = λ _. v.alive;
              left = λ _. ground arith;
              wins = λ e. cc;
              loses = λ e. cc;
            }))

  is_playing_eq : (c : GameState) → is_playing c ≡ true → c ≡ GameState.playing
  is_playing_eq GameState.playing e = refl
  is_playing_eq _ e = cc

  pub sim_step-Sound : (g : Breakout R) (s : Scene) → Sound g → Sound ((sim_step k g s).0)
  unfolding sim_step
  sim_step-Sound g s v =
      let g1 = meet_paddle k (move_ball k g) in
      if_cases (λ (p : Breakout R × Scene). Sound p.0) (not (is_playing g.state)) (λ _. v)
        (λ q. settle-Sound ((bounce_off_bricks k g1 s).0) (
          bounce-IsUnderWay g1 s (subst IsSound (sym (moved-board g)) v)
            (ap (λ b. b.state) (moved-board g) ∙ is_playing_eq g.state (ground arith))))
