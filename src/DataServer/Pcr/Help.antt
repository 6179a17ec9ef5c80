-- ===== src/DataServer/Pcr/Help.antt =====
-- PCR_SendHelp: what a client is told that it may ask for.
use mmtao_old.Base.{List, [], ◌∷◌, ◌++◌, map, if◌then◌else◌}
use mmtao_old.Base.Text.{Bytes, codes}
use mmtao_old.Base.Int.{ℤ, pos, negsuc}
use mmtao_old.Topbox.Link.{M, pure, Env, ◌>>=◌}
use mmtao_old.DataServer.Pcr.Vectors.{write_request}

unfoldable pub help_lines : List Bytes
help_lines =
    map (λ line. line ++ 10 ∷ [])
      (codes "Possible Info requests:"
        ∷ codes "  ?, h, help    Print out possible commands"
        ∷ codes "  cmd           Send a request to the Cmd port of the PCR"
        ∷ codes "  connect       Connect to either the WFSC or DM port on the PCR"
        ∷ codes "    -> wfsc      Start thread to receive and store WFSC image from the PCR"
        ∷ codes "    -> dm        Start thread to receive and store DM frames from the PCR"
        ∷ codes "  stop       Stop one of the PCR Clients"
        ∷ codes "    -> wfsc      Stop the PCR WFSC Client"
        ∷ codes "    -> dm        Stop the PCR DM Client"
        ∷ codes "  reset       Reset one of the PCR Clients"
        ∷ codes "    -> wfsc      Reset the PCR WFSC Client"
        ∷ codes "    -> dm        Reset the PCR DM Client"
        ∷ codes "  quit          Quit this connection"
        ∷ codes "  exit          Shutdown the entire PCR_Server"
        ∷ [])

-- PCR_SendHelp: 0, or -1 after a line that was not taken in full.
unfoldable pub send_help : Env → List Bytes → M ℤ
unfolding write_request
send_help env [] = pure (pos 0)
send_help env (line ∷ lines) = do
  sent ← write_request env line
  if sent then send_help env lines else pure (negsuc 0)
