-- ===== src/Security/Env.antt =====
-- clean_env() of src/githost_mcp/security.py.
use githost_mcp.Base.{not, [], ◌∷◌, keep_if, List, Text, codes, text_mem}

unfoldable pub pm2_ipc_env_vars : List Text
pm2_ipc_env_vars =
    codes "NODE_CHANNEL_FD" ∷ codes "NODE_CHANNEL_SERIALIZATION_MODE" ∷ codes "NODE_UNIQUE_ID" ∷ []

unfoldable pub clean_env : List (Text × Text) → List (Text × Text)
clean_env = keep_if (λ (k, v). not (text_mem k pm2_ipc_env_vars))
