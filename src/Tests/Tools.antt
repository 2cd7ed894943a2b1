-- ===== src/Tests/Tools.antt =====
-- Tests of the git tools that change a repository or the file system.
use githost_mcp.Base.{false, codes, [], none, some, ◌≡◌, refl}
use githost_mcp.Tools.Hoare.{Ends}
use githost_mcp.Git.Clone.{git_clone}
use githost_mcp.Git.Clone.Cleanup.{standing, Outcome, git_clone-standing}
use githost_mcp.Registry.{pypi_publish}
use githost_mcp.Registry.Laws.{IsHanded, handed, pypi_publish-IsHanded}
use githost_mcp.Config.System.{Config, default_config}
use githost_mcp.Server.Laws.{IsGuarded, start-IsGuarded}
use githost_mcp.Git.Guard.{Refuses, WriteCall, run, run-Refuses}
use githost_mcp.Errors.{ExcType, Fault}
use githost_mcp.Tools.Host.{Host}
use githost_mcp.Git.Lease.{git_push_force_with_lease}
use githost_mcp.Git.Lease.Told.{pushes, heard}
use githost_mcp.Git.Lease.Laws.{Pushed, git_push_force_with_lease-pushes}
use githost_mcp.Release.Rollback.{no_repos}
use githost_mcp.Release.Steps.{release}
use githost_mcp.Release.Left.{left, nothing}
use githost_mcp.Release.Forges.{Settled}
use githost_mcp.Release.Outcome.{release-undone}
use githost_mcp.Tests.Hosts.{host, a_sha}

git_clone-standing_example :
    let end = git_clone host (codes "github") (codes "us") (codes "tool") none none [] in
    Ends (Outcome host []) (λ after. standing host after ≡ some []) end.0 end.1
unfolding standing
git_clone-standing_example =
    git_clone-standing host (codes "github") (codes "us") (codes "tool") none none [] [] refl

git_push_force_with_lease-pushes_example :
    let end =
      git_push_force_with_lease host
        (codes "/work/tool")
        (codes "topic")
        a_sha
        (codes "origin")
        [] in
    Pushed host (codes "topic") a_sha (codes "origin") (pushes []) (heard host []) end.1
git_push_force_with_lease-pushes_example =
    git_push_force_with_lease-pushes host (codes "/work/tool") (codes "topic") a_sha
      (codes "origin") []

-- The push of the tag reports nothing, so the release is undone.
release-undone_example :
    let end = release host (codes "/work/tool") (codes "1.0") none no_repos none false [] in
    Ends (Settled host) (λ after. left host after ≡ nothing) end.0 end.1
unfolding left
release-undone_example =
    release-undone host (codes "/work/tool") (codes "1.0") none no_repos none false [] (λ h c. refl)
      refl

pypi_publish-IsHanded_example :
    IsHanded host
      (codes "pypi")
      (handed [])
      (pypi_publish host (codes "/work/tool") (codes "pypi") (codes "dist") []).1
pypi_publish-IsHanded_example =
    pypi_publish-IsHanded host (codes "/work/tool") (codes "pypi") (codes "dist") []

-- Settings with which the server listens on HTTP.
abbrev http_settings : Config
http_settings = record default_config {
  transport = codes "http";
  auth_token = codes "0123456789abcdef";
  http_host = codes "localhost";
}

start-IsGuarded_example : IsGuarded http_settings (codes "localhost") none
unfolding githost_mcp.Server.start githost_mcp.Base.text_eq codes githost_mcp.Server.http_listener
    githost_mcp.Base.text_mem githost_mcp.Server.loopback_hosts default_config
start-IsGuarded_example = start-IsGuarded http_settings (codes "localhost") none refl

-- No root may be written to.
abbrev blocked : Host
blocked = record host { config = default_config }

run-Refuses_example :
    Refuses blocked
      (run blocked (codes "/work/tool") (WriteCall.pull (codes "origin")))
      ExcType.path_not_allowed
      Fault.no_roots
unfolding githost_mcp.Security.Paths.validate_write_path githost_mcp.Security.Paths.validate_path
    default_config
run-Refuses_example =
    run-Refuses blocked (codes "/work/tool") (WriteCall.pull (codes "origin"))
      ExcType.path_not_allowed Fault.no_roots refl
