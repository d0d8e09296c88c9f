-- ===== src/Music/Audio.antt =====
-- components/mosaic_ui/apps/music/music_audio.h and .c: the player behind the controller. What it
-- plays on is a parameter; a call without a player is answered here.
use esp_mosaico_claw.Base.{ℕ, none, some, Ptr, Text, EspErr, invalid_arg, invalid_state}

-- `music_audio_state_t`.
pub data AudioState : Type 0 where
  idle playing paused stopped finished error : AudioState

-- `music_audio_status_t`, without the error that the controller does not read. Times are not
-- negative.
pub record AudioStatus : Type 0 where
  pub audio_state : AudioState
  pub audio_position_ms : ℕ
  pub audio_duration_ms : ℕ

-- The calls of a player in state `A`.
pub record AudioOps (A : Type 0) : Type 0 where
  pub create : EspErr × A
  pub play : Text → ℕ → A → EspErr × A
  pub pause : A → EspErr × A
  pub resume : A → EspErr × A
  pub status : A → EspErr × AudioStatus

module _ {A : Type 0} (o : AudioOps A) where
  abbrev with_player : EspErr → (A → EspErr × A) → Ptr A → EspErr × Ptr A
  with_player e f none = (e, none)
  with_player e f (some a) = let (e', a') = f a in (e', some a')

  abbrev pub audio_play : Text → ℕ → Ptr A → EspErr × Ptr A
  audio_play path bytes = with_player invalid_arg (o.play path bytes)

  abbrev pub audio_pause : Ptr A → EspErr × Ptr A
  audio_pause = with_player invalid_state o.pause

  abbrev pub audio_resume : Ptr A → EspErr × Ptr A
  audio_resume = with_player invalid_state o.resume

  -- The status that a successful call writes; `none` stands for nothing written.
  abbrev pub audio_status : Ptr A → EspErr × Ptr AudioStatus
  audio_status none = (invalid_arg, none)
  audio_status (some a) = let (e, s) = o.status a in (e, some s)
