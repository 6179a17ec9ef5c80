-- ===== src/DataServer/Frames/Stream/Tests.antt =====
-- The theorem on DServ_Stream at a concrete input.
use mmtao_old.DataServer.Frames.{FrameData, dm_layout}
use mmtao_old.DataServer.Frames.Stream.{Glance, Round}
use mmtao_old.Base.{◌+◌, ◌*◌, some}
use mmtao_old.Base.Int.{pos}
use mmtao_old.Base.Text.{codes}

abbrev ring : FrameData
ring = record {
  num_frames = 1000;
  layout = dm_layout;
  links = record { frame_ptr = λ j. j * 4423; next_frame = λ j. j + 1 };
  active = 1;
  data_ptr = 4423;
  last = pos 0;
}

-- The frame has come, and the client asks for the status.
abbrev glance : Glance
glance = record { asked = some (some (codes "status")); number = 8 }

abbrev quiet_round : Round
quiet_round = record { memory = λ i p. p; glances = λ i. glance }
