-- ===== src/Server.antt =====
-- main() of src/githost_mcp/server.py: what the server listens on, if it starts.
pub mod Laws
use githost_mcp.Base.{
  ℕ, not, ltb, length, is_empty, text_mem, text_eq, ◌&&◌, if◌then◌else◌, Text, List, Option, [],
  ◌∷◌, codes,
}
use githost_mcp.Config.System.{Config, ℤ}
use githost_mcp.Errors.{Result, ok, ◌>>=◌, ◌>>◌, raise_if, ExcType, Fault}

-- `_LOOPBACK_HOSTS`
unfoldable pub loopback_hosts : List Text
loopback_hosts = codes "127.0.0.1" ∷ codes "localhost" ∷ codes "::1" ∷ []

-- `_MIN_AUTH_TOKEN_LENGTH`
abbrev pub min_auth_token_length : ℕ
min_auth_token_length = 16

-- What mcp.run() is called with.
pub data Listener : Type 0 where
  http : Text → Option ℤ → Listener
  stdio : Listener

-- A RuntimeError is of a class that no handler of the server catches.
unfoldable pub http_listener : Config → Result Listener
http_listener config = do
  raise_if (not (text_mem config.http_host loopback_hosts) && not config.allow_nonloopback)
      ExcType.exception (Fault.raised config.http_host)
  raise_if (is_empty config.auth_token) ExcType.exception (Fault.raised [])
  raise_if (ltb (length config.auth_token) min_auth_token_length) ExcType.exception
      (Fault.raised [])
  ok (Listener.http config.http_host config.http_port)

unfoldable pub start : Config → Result Listener
start config =
    if text_eq config.transport (codes "http") then http_listener config else ok Listener.stdio
