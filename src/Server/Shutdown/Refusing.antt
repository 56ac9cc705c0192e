-- ===== src/Server/Shutdown/Refusing.antt =====
-- A server that was stopped.
use grpc_dgram.Prelude.{ℕ, ◌≡◌, Bool, arith}
use grpc_dgram.Wire.Flags.{Frame}
use grpc_dgram.Server.Table.{Config, Desk}
use grpc_dgram.Server.Dispatch.{handle}
use grpc_dgram.Server.Dispatch.Started.{Opens, Admits, handle-Opens}
use grpc_dgram.Server.Shutdown.{stop}

-- No frame starts a handler on a server that was stopped.
handle-stop :
    (cfg : Config) (now : ℕ) (rel aborted : Bool) (f : Frame) (d : Desk)
    → (handle cfg now rel aborted f (stop d)).started ≡ d.started
unfolding stop Opens Admits
handle-stop cfg now rel aborted f d = ground (arith, handle-Opens cfg now rel aborted f (stop d))
