-- ===== src/Server/Shutdown/Ending.antt =====
-- The runs of `TFTPServer::start` of src/TFTPServer.cpp, up to the end of the server.
use tftp.Base.{ℕ, ◌≤◌, Bool, true, ◌≡◌, List, ◌∷◌, ◌++◌}
use tftp.Server.Listen.{Incoming}
use tftp.Server.Shutdown.{Running, Happening, test, serve, sweep}
use tftp.Server.Shutdown.Stages.{progress}

-- As far as a stage with the flag set.
abbrev Reached : ℕ → Running → Type 0
Reached n r = (r.control.destroy_tftp_server ≡ true) × (n ≤ progress r.control)

-- From the flag to the joins of the client threads.
abbrev pub to_joins :
    List Happening
    → Incoming
    → List Happening
    → Bool
    → List Happening
    → List Happening
    → List Happening
to_joins a e b set c d = a ++ serve e ∷ (b ++ test set ∷ (c ++ sweep ∷ d))
