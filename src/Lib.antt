-- ===== src/Lib.antt =====
-- Verification of githost-mcp, a server that gives agents git and forge operations as tools.
--
-- A tool call passes a chain of checks before git or a forge API is reached. config.py resolves what
-- an agent may read and write (environment, policy file, manifest) and caches it; security.py decides
-- on paths, write globs, names and URLs and scrubs what leaves the process; identity.py decides under
-- which name a commit is made; bootstrap.py checks clones and creations; gitflags.py decodes what git
-- reported; audit.py writes one signed record for each call, with the class that errors.py gives it.
--
-- Which file models which part:
--   Errors     src/githost_mcp/errors.py: the exception classes and classify_reason().
--   Config     src/githost_mcp/config.py: Yaml is parsed YAML, System the surroundings and the record
--              of settings, Grants _resolve_allowed_roots() and what it calls, Load load_config(),
--              Cache get_config() with the globals _config and _loading as a state.
--   Security   src/githost_mcp/security.py: Paths, Globs, Names and Urls are the validate_*()
--              functions, Masking mask_credentials(), redact_url_credentials() and scrub(), Env
--              clean_env().
--   Identity   src/githost_mcp/identity.py: Remote is the reading of one remote, Ownership the
--              decision over all of them.
--   Bootstrap  src/githost_mcp/bootstrap.py: Segments, Readback, Tree, Owned and Clone.
--   Gitflags   src/githost_mcp/gitflags.py.
--   Tools      what a tool function is: Host lists the calls that it can make of GitPython, git, the
--              file system, the forge clients and the audit log, and the answers to them; Run is a
--              tool's steps over them with errors; Hoare has rules for what holds after a run.
--   Git        src/githost_mcp/tools/git_local.py: Mode is _resolve_identity_mode() with the lookup
--              of forks and its cache in the repository's configuration, Refs the guards of worktree
--              names, refs, leases and protected branches; Read, Branch, Remote, Commit, Push, Lease,
--              Worktree and Clone are the tools, each one a function of its arguments, and Guard is
--              on all that write to a repository.
--   Release    src/githost_mcp/tools/release.py: Rollback is _rollback(), Plan the arguments with the
--              targets and what they create, Steps the tool release(). Left counts what its calls
--              leave behind, each tag and release by its repository and name.
--   Registry   src/githost_mcp/tools/registry.py: pypi_publish() and npm_publish().
--   Query      src/githost_mcp/tools/audit_query.py: Reader is _reverse_lines(), Search the tool
--              audit_log_query().
--   Audit      src/githost_mcp/audit.py: Values bounds and scrubs, Integrity builds, signs and checks
--              a record, Rotation is the log file with its backups, Rejection what a refused call
--              leaves behind.
--   Stdlib     fnmatch.fnmatch() and posixpath.normpath() of Python's library, which the globs use.
--   Server     src/githost_mcp/server.py: main().
--   Base       texts, lists, tests and their lemmas. Tests holds runs at concrete inputs.
--
-- A tool takes the calls so far, the last one first, and gives a value or a raise with the calls
-- after; a Host answers each call, by a value or a raise, from the calls before it. The audit record
-- that AuditCtx.finish() writes is one of the calls. What a call does is known only by its answer, so
-- a theorem on tools is one on the calls that are made, on every answer that may come.
--
-- A text is the list of its code points. A raise is a value: the exception's class with a Fault that
-- names the raise site and holds the values its message shows; other wording is not modelled. Loops
-- over a list are recursion on it, with what is left of the loop as an argument where the body can
-- leave it. Sizes and bitmasks are natural numbers; a setting that int() reads is an integer.
--
-- Parameters, for code that is not in the repository or that reads the machine: the resolution of a
-- path by pathlib, str.lower(), urllib's urlsplit(), repr(), HMAC-SHA256 over canonical JSON (the
-- digest), the size of a log's lines in bytes, GitPython's flag integers, GitHub's answer for a
-- repository, and in the record System the environment, the YAML parser with the three ways in which
-- it can end, os.path.exists(), expanduser(), str() and int(). A theorem that needs something of one of them has it as a
-- hypothesis.
--
-- Bounds: the parser of glob patterns takes the pattern's length as fuel, of which it uses one for
-- each character at least; decimal() takes as fuel the number itself and one, which are more than its
-- digits. The backward reader of the audit log takes as fuel the file's size, of which a block uses one
-- byte at least; the reader's theorem is for every block size from 1 up. Which file operations of a rotation fail is an argument, the record Faults.
--
-- Not modelled: log lines and metrics exporters, the set-up of logging and of the server, the lock
-- around the log, the bodies of checkout_origin() and run_clone(), which only call GitPython, the
-- tools of the forges and of Woodpecker under src/githost_mcp/tools, and the API
-- clients under src/githost_mcp/_providers. An error in the middle of reading a log is not told apart
-- from one at its start.
pub mod Audit
pub mod Base
pub mod Bootstrap
pub mod Config
pub mod Errors
pub mod Git
pub mod Gitflags
pub mod Identity
pub mod Query
pub mod Registry
pub mod Release
pub mod Security
pub mod Server
pub mod Stdlib
pub mod Tests
pub mod Tools
