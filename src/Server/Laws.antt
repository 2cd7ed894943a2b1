-- ===== src/Server/Laws.antt =====
-- What main() of src/githost_mcp/server.py lets start.
use githost_mcp.Base.{
  ◌∷◌, sym, subst, none, codes, ap, [], true, false, leb, length, text_mem, text_eq_refl, has_char,
  contains, Text, Option, ◌≡◌, ◌⊎◌, arith,
}
use githost_mcp.Config.System.{Config, ℤ}
use githost_mcp.Errors.{ok}
use githost_mcp.Security.Masking.{scrub, secrets}
use githost_mcp.Security.Masking.Secrets.{scrub-removes}
use githost_mcp.Server.{loopback_hosts, Listener, http_listener, start}

-- The token is one of the secrets that a scrub removes.
auth_token-secret : (config : Config) → text_mem config.auth_token (secrets config) ≡ true
unfolding text_mem secrets
auth_token-secret config = ground (arith, text_eq_refl config.auth_token)

-- What holds of the host and the port that the server listens on, and of the settings.
abbrev pub IsGuarded : Config → Text → Option ℤ → Type 0
IsGuarded config host port =
    ((text_mem host (codes "127.0.0.1" ∷ codes "localhost" ∷ codes "::1" ∷ []) ≡ true)
      ⊎ (config.allow_nonloopback ≡ true))
    × (host ≡ config.http_host)
    × (port ≡ config.http_port)
    × (leb 16 (length config.auth_token) ≡ true)
    × ((text : Text)
        → has_char b'*' config.auth_token ≡ false
        → contains (scrub config text) config.auth_token ≡ false)

abbrev host_of : Listener → Text
host_of (Listener.http host port) = host
host_of Listener.stdio = []

abbrev port_of : Listener → Option ℤ
port_of (Listener.http host port) = port
port_of Listener.stdio = none

listener-eq :
    (config : Config) (host : Text) (port : Option ℤ)
    → http_listener config ≡ ok (Listener.http host port)
    → (config.http_host ≡ host) × (config.http_port ≡ port)
unfolding http_listener
listener-eq config host port h =
    let e : Listener.http config.http_host config.http_port ≡ Listener.http host port =
      ground (arith, h) in
    (ap host_of e, ap port_of e)

http_listener-HasToken :
    (config : Config) (l : Listener)
    → http_listener config ≡ ok l
    → ((text_mem config.http_host loopback_hosts ≡ true) ⊎ (config.allow_nonloopback ≡ true))
      × (leb 16 (length config.auth_token) ≡ true)
unfolding http_listener
http_listener-HasToken config l h = ground (arith, h)

start-http :
    (config : Config) (http_host : Text) (port : Option ℤ)
    → start config ≡ ok (Listener.http http_host port)
    → http_listener config ≡ ok (Listener.http http_host port)
unfolding start
start-http config host port h = ground (arith, h)

-- Where the server starts on HTTP, it listens on the configured host and port, that host is a
-- loopback name or the override is set, the token has 16 characters or more, and where that token
-- has no `*` in it no scrubbed text contains it.
pub start-IsGuarded :
    (config : Config) (host : Text) (port : Option ℤ)
    → start config ≡ ok (Listener.http host port)
    → IsGuarded config host port
unfolding loopback_hosts
start-IsGuarded config host port h =
    let listens = start-http config host port h in
    let (h_host, h_port) = listener-eq config host port listens in
    let (bound, long) = http_listener-HasToken config _ listens in
    (
      subst (λ t. (text_mem t loopback_hosts ≡ true) ⊎ (config.allow_nonloopback ≡ true)) h_host
          bound,
      sym h_host,
      sym h_port,
      long,
      λ text plain.
          (scrub-removes config text config.auth_token (auth_token-secret config)
            (ground (arith, long)) plain).1,
    )
