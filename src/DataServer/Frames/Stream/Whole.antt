-- ===== src/DataServer/Frames/Stream/Whole.antt =====
-- What a client of DServ_Stream reads, from its request on.
use mmtao_old.DataServer.Frames.Sets.{Selection, total_of}
use mmtao_old.Topbox.Link.{Link}
use mmtao_old.Base.{◌≡◌}
use Prim.Native.String.{String}

-- `nBytes` is the number of bytes in the sets.
abbrev Announces : Selection → Type 0
Announces sel = sel.nbytes ≡ total_of sel.sets
