-- ===== src/Topbox/Stage/Settles.antt =====
-- Every routine of the stages runs to its end, gives the mutex back and clears the flags of a
-- device that it lost.
use mmtao_old.Topbox.Link.{Env, Link, Float, DeviceData, M, ◌>>◌, modify, pure}
use mmtao_old.Topbox.Stage
use mmtao_old.Topbox.Mvp.Wire.Laws.{write_frame, write_open, flush_frame}
use mmtao_old.Topbox.Mvp.Settles.{IsSettled, Settles}
use mmtao_old.Base.{◌≡◌, arith, Option, true, false, none, some}
use mmtao_old.Base.Text.{Bytes}
use mmtao_old.Base.Int.{is_negative, ℤ, pos}
use mmtao_old.Topbox.Socket.{flush}

module _ (env : Env) where
  -- Stage_Read changes what waits and the error flag, and nothing else.
  pub stage_read_frame :
      (s : Link)
      → let t = (Stage.stage_read_step env s).1 in t ≡ record s { inbox = t.inbox; error = t.error }
  unfolding Stage.stage_read_step Stage.stage_read_end
  stage_read_frame s = ground arith

module _ (env : Env) (s : Link) (settled : IsSettled s) where
  pub stage_command-Settles : (request : Bytes) → Settles (Stage.stage_command env request s)
  unfolding Stage.stage_command
  stage_command-Settles request = grind (arith, write_frame, write_open)

  pub stage_request-Settles : (request : Bytes) → Settles (Stage.stage_request env request s)
  unfolding Stage.stage_request
  stage_request-Settles request = grind (arith, write_frame, write_open)

  pub stage_set_home_var-Settles : (v : Float) → Settles (Stage.stage_set_home_var env v s)
  unfolding Stage.stage_set_home_var
  stage_set_home_var-Settles v = grind (arith, write_frame, write_open)

  pub stage_position-Settles : Settles (Stage.stage_position env s)
  unfolding Stage.stage_position
  stage_position-Settles = grind (arith, write_frame, write_open, stage_read_frame)

  -- What get_thing leaves: with a reply, a device that is connected.
  pub Answers : Option ((ℤ × Bytes) × Link) → Type 0
  Answers none = ⊥
  Answers (some ((status, reply), t)) =
      IsSettled t × (is_negative status ≡ false → t.connected ≡ true)

  get_thing-Answers : (request : Bytes) → Answers (Stage.get_thing env request s)
  unfolding Stage.get_thing Answers
  get_thing-Answers request = grind (arith, write_frame, write_open, stage_read_frame)

module _ (env : Env) where
  ask-Settles :
      (request : Bytes) (store : Bytes → DeviceData → DeviceData) (rest : M ℤ) (s : Link)
      → IsSettled s
      → ((t : Link) → IsSettled t → Settles (rest t))
      → Settles (Stage.ask env request store rest s)
  unfolding Stage.ask Answers
  ask-Settles request store rest s h k =
      let answers = get_thing-Answers env s h request in grind arith

  end_status-Settles : (s : Link) → IsSettled s → Settles ((do modify flush; pure (pos 0)) s)
  end_status-Settles s h = grind (arith, flush_frame)

  pub stage_status-Settles : (s : Link) → IsSettled s → Settles (Stage.stage_status env s)
  unfolding Stage.stage_status
  stage_status-Settles s h = search (ask-Settles, end_status-Settles) depth 12

  pub stage_move_absolute-Settles :
      (d : Float) (s : Link) → IsSettled s → Settles (Stage.stage_move_absolute env d s)
  unfolding Stage.stage_move_absolute
  stage_move_absolute-Settles d s h = stage_command-Settles env s h _

  pub stage_move_relative-Settles :
      (d : Float) (s : Link) → IsSettled s → Settles (Stage.stage_move_relative env d s)
  unfolding Stage.stage_move_relative
  stage_move_relative-Settles d s h = stage_command-Settles env s h _
