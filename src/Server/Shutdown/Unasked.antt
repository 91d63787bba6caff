-- ===== src/Server/Shutdown/Unasked.antt =====
-- The runs of `TFTPServer::start` of src/TFTPServer.cpp in which nobody agrees to its end.
use tftp.Base.{
  Bytes, Bool, true, false, not, ◌&&◌, ◌||◌, ◌≡◌, Option, some, List, [], ◌∷◌, ◌==◌, ◌>>=◌,
}
use tftp.Server.Shutdown.{
  drain, unbound, Main, testing, receiving, joining, over, sweeping, Control, Happening, test,
  serve, leave, sweep, join, signal,
}

-- Whether a y is among what is typed.
abbrev agrees : Bytes → Bool
agrees [] = false
agrees (c ∷ typed) = c == 121 || agrees typed

abbrev pub is_unasked : Happening → Bool
is_unasked (signal typed) = not (agrees typed)
is_unasked (test set) = true
is_unasked (serve e) = true
is_unasked (leave id) = true
is_unasked sweep = true
is_unasked drain = true
is_unasked join = true
is_unasked unbound = true

-- No y is typed.
abbrev pub all_unasked : List Happening → Bool
all_unasked [] = true
all_unasked (h ∷ rest) = is_unasked h && all_unasked rest

abbrev is_alive : Main → Bool
is_alive testing = true
is_alive receiving = true
is_alive joining = true
is_alive over = false

-- The control as long as the flag is not set.
abbrev serving : Main → Bytes → Control
serving m input = record {
  main = m;
  sweeper = sweeping;
  destroy_tftp_server = false;
  input = input;
}

abbrev IsServing : Option Control → Type 0
IsServing result =
    (m : Main) × (input : Bytes) × (result ≡ some (serving m input))
    × (agrees input ≡ false)
    × (is_alive m ≡ true)
