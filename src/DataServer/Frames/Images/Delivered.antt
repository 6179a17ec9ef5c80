-- ===== src/DataServer/Frames/Images/Delivered.antt =====
-- The way of an image from the reconstructor to a client.
use mmtao_old.DataServer.Frames.Single.{host_word, negated}
use mmtao_old.DataServer.Frames.Receive.{store}
use mmtao_old.DataServer.Frames.Wfsc.{WfscThread}
use mmtao_old.DataServer.Frames.Wfsc.Rows.{pixels, stored}
use mmtao_old.DataServer.Frames.Wfsc.Stored.{Sending, taken, behind_header}
use mmtao_old.Topbox.Link.{Env, Link}
use mmtao_old.Base.{ℕ, ◌+◌, length, ◌==◌, if◌then◌else◌}
use mmtao_old.Base.Int.{ℤ, pos}
use mmtao_old.Base.Text.{Bytes, codes}

module _ (env : Env) where
  module _ (f : Sending) (w : WfscThread) where
    -- The ring behind the frame.
    abbrev filled_ring : Bytes → WfscThread
    filled_ring more =
        taken (pos 0) (stored (behind_header f.number w.receiver) (pixels f.grid) more) w

    -- What a client is told of the size.
    abbrev pub told : ℕ → ℤ
    told old =
        if host_word f.number == old
        then negated (length (pixels f.grid))
        else pos (length (pixels f.grid))

    -- Where the frame was to begin, and where it does.
    abbrev start_of : ℕ
    start_of = w.receiver.frames.links.frame_ptr w.receiver.frames.active

    abbrev begun : ℕ → ℕ
    begun = store w.receiver.memory w.receiver.frames.data_ptr (codes "SOF")

    abbrev numbered : ℕ → ℕ
    numbered = store begun (w.receiver.frames.data_ptr + 3) f.number

    abbrev completed : ℕ → ℕ
    completed = store numbered (w.receiver.frames.data_ptr + 3 + 4) (pixels f.grid)
